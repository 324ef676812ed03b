-- ===== src/RankingService/Upsert/Found.antt =====
-- What a search or a count finds after an `upsert`.
use khaabo.Prelude.{
  ◌≤◌, ◌≡◌, refl, ◌∙◌, Bool, true, false, none, some, List, [], ◌∷◌, ◌++◌, map, if◌then◌else◌, any,
  count, find, arith, inl, inr, Bool-cases, find-map_if, find-append_one, find_found, count-map,
  count-append, count_none, All-of_any, All-map,
}
use khaabo.RankingService.Upsert.{upsert}

module _ {ℓ} {A : Type ℓ} where
  find-of_any-false : (p : A → Bool) (xs : List A) → any p xs ≡ false → find p xs ≡ none
  find-of_any-false p [] h = refl
  find-of_any-false p (x ∷ xs) h = ground (arith, find-of_any-false p xs)

  find-of_any : (p : A → Bool) (xs : List A) → any p xs ≡ true → (x : A) × (find p xs ≡ some x)
  find-of_any p [] h = cc
  find-of_any p (x ∷ xs) h = elim (Bool-cases (p x)) [
    | inl e ↦ (x, rw e refl)
    | inr e ↦ let rest = find-of_any p xs (rw e at h) in (rest.0, rw e (rest.1))
  ]

  -- A row of the key is found, with the fields set.
  pub find-upsert_self :
      (test : A → Bool) (set : A → A) (new : A) (rows : List A)
      → ((x : A) → test (set x) ≡ test x)
      → test new ≡ true
      → (x : A) × (test x ≡ true) × (find test (upsert test set new rows) ≡ some (set x))
  unfolding upsert
  find-upsert_self test set new rows h k = elim (Bool-cases (any test rows)) [
    | inl e ↦
        let found = find-of_any test rows e in
        let passes = find_found test rows found.0 found.1 in
        (found.0, passes, rw (e, find-map_if test test set h rows, found.1, passes) refl)
    | inr e ↦ (
      new,
      k,
      rw (e, find-append_one test rows (set new), find-of_any-false test rows e, h new, k) refl,
    )
  ]

  -- A search for anything else finds what it found before.
  pub find-upsert_other :
      (p test : A → Bool) (set : A → A) (new : A) (rows : List A)
      → ((x : A) → p (set x) ≡ p x)
      → ((x : A) → test x ≡ true → p x ≡ false)
      → test new ≡ true
      → find p (upsert test set new rows) ≡ find p rows
  unfolding upsert
  find-upsert_other p test set new rows h apart k = elim (Bool-cases (any test rows)) [
    | inl e ↦ rw e (find-map_apart rows)
    | inr e ↦ rw e (find-append_fails rows (set new) (h new ∙ apart new k))
  ]
    where
      find-append_fails :
          (rows : List A) (y : A) → p y ≡ false → find p (rows ++ (y ∷ [])) ≡ find p rows
      find-append_fails [] y fails = rw fails refl
      find-append_fails (x ∷ xs) y fails = ground (arith, find-append_fails xs y fails)

      find-map_apart :
          (rows : List A) → find p (map (λ x. if test x then set x else x) rows) ≡ find p rows
      find-map_apart [] = refl
      find-map_apart (x ∷ xs) = ground (arith, h x, apart x, find-map_apart xs)

  -- A key that has at most one row still has, if the new row is added only where it has none.
  pub count-upsert-le_one :
      (p test : A → Bool) (set : A → A) (new : A) (rows : List A)
      → ((x : A) → p (set x) ≡ p x)
      → (p new ≡ true → (x : A) → test x ≡ false → p x ≡ false)
      → count p rows ≤ 1
      → count p (upsert test set new rows) ≤ 1
  unfolding upsert
  count-upsert-le_one p test set new rows h same one = elim (Bool-cases (any test rows)) [
    | inl e ↦ rw e (change_kept rows one)
    | inr e ↦
        rw (e, count-append p rows (set new ∷ []), h new)
          (elim (Bool-cases (p new)) [
            | inl passes ↦
                let fails : count p rows ≡ 0 = count_none p rows (
                  All-map (λ x. test x ≡ false) (λ x. p x ≡ false) (same passes) rows
                    (All-of_any test rows e)) in
                rw (passes, fails) (omega arith)
            | inr fails ↦ rw fails (omega arith)
          ])
  ]
    where
      change_kept :
          (rows : List A)
          → count p rows ≤ 1
          → count p (map (λ x. if test x then set x else x) rows) ≤ 1
      change_kept rows one =
          rw (count-map p (λ x. if test x then set x else x) (λ x. ground (arith, h x)) rows) one

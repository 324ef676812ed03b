-- ===== src/Ingestion/Mentions/Only.antt =====
-- `resolve_mention` answers only where one restaurant alone is named.
use khaabo.Prelude.{
  ◌≡◌, refl, sym, ◌⊎◌, inl, inr, Bool, true, false, not, ◌&&◌, ◌||◌, Option, some, List, [], ◌∷◌,
  String, any, is_empty, arith, str_eq, if◌then◌else◌, All, All-map, Bool-cases, eq_iff, eq_refl,
}
use khaabo.Float.{Float}
use khaabo.EntityResolution.{CandidateRestaurant}
use khaabo.Ingestion.Model.{Texts}
use khaabo.Ingestion.Mentions.{
  Hit, put_hit, single_hit, labels_in, hits_from, mention_hits, resolve_mention,
}

abbrev has_id : String → List Hit → Bool
has_id i hits = any (λ h. str_eq h.0 i) hits

has_id-put_hit :
    (i : String) (h : Hit) (hits : List Hit)
    → has_id i (put_hit h hits) ≡ (str_eq h.0 i || has_id i hits)
has_id-put_hit i h [] = refl
has_id-put_hit i h (k ∷ ks) = elim (Bool-cases (str_eq k.0 h.0)) [
  | inl e ↦ (let same : k.0 ≡ h.0 = (eq_iff k.0 h.0).0 e in rw (e, same) (ground arith))
  | inr e ↦ rw (e, has_id-put_hit i h ks) (ground arith)
]

single_hit_id :
    (hits : List Hit) (i : String) (label : Option String)
    → single_hit hits ≡ some (i, label)
    → (labels : List String) × (hits ≡ (i, labels) ∷ [])
unfolding single_hit
single_hit_id [] i label h = cc
single_hit_id ((j, labels) ∷ []) i label h = (labels, cc)
single_hit_id (g ∷ k ∷ hits) i label h = cc

has_id_only : (i j : String) (labels : List String) → has_id j ((i, labels) ∷ []) ≡ true → j ≡ i
has_id_only i j labels h = elim (Bool-cases (str_eq i j)) [
  | inl e ↦ sym ((eq_iff i j).0 e)
  | inr e ↦ (let k = rw e at h in cc)
]

module _ {F : Type 0} ⦃f : Float F⦄ (texts : Texts F) (text_norm : String) where
  -- A name or an alias of the candidate stands in the text.
  abbrev pub IsNamed : CandidateRestaurant F → Type 0
  IsNamed c = is_empty (labels_in texts text_norm c) ≡ false

  abbrev after : CandidateRestaurant F → List Hit → List Hit
  after c hits =
      if is_empty (labels_in texts text_norm c)
      then hits
      else put_hit (c.id, labels_in texts text_norm c) hits

  -- An id that is a hit stays one, and a candidate that is named becomes one.
  hits_from_keeps :
      (cs : List (CandidateRestaurant F)) (hits : List Hit) (i : String)
      → has_id i hits ≡ true
      → has_id i (hits_from texts text_norm cs hits) ≡ true
  unfolding hits_from
  hits_from_keeps [] hits i h = h
  hits_from_keeps (c ∷ cs) hits i h =
      hits_from_keeps cs (after c hits) i
        (elim (Bool-cases (is_empty (labels_in texts text_norm c))) [
          | inl e ↦ rw e h
          | inr e ↦
              rw (e, has_id-put_hit i (c.id, labels_in texts text_norm c) hits, h) (ground arith)
        ])

  hits_from-IsNamed :
      (cs : List (CandidateRestaurant F)) (hits : List Hit)
      → All (λ c. IsNamed c → has_id c.id (hits_from texts text_norm cs hits) ≡ true) cs
  unfolding hits_from
  hits_from-IsNamed [] hits = tt
  hits_from-IsNamed (c ∷ cs) hits = (
    λ named. hits_from_keeps cs (after c hits) c.id (
        rw (named, has_id-put_hit c.id (c.id, labels_in texts text_norm c) hits, eq_refl c.id)
          refl),
    hits_from-IsNamed cs (after c hits),
  )

  -- A hit was one before, or it is that of a candidate that is named.
  hits_from_founded :
      (cs : List (CandidateRestaurant F)) (hits : List Hit) (i : String)
      → has_id i (hits_from texts text_norm cs hits) ≡ true
      → (has_id i hits ≡ true)
        ⊎ (any (λ c. str_eq c.id i && not (is_empty (labels_in texts text_norm c))) cs ≡ true)
  unfolding hits_from
  hits_from_founded [] hits i h = inl h
  hits_from_founded (c ∷ cs) hits i h = elim (Bool-cases (is_empty (labels_in texts text_norm c))) [
    | inl e ↦ elim (hits_from_founded cs hits i (rw e at h)) [
      | inl k ↦ inl k
      | inr k ↦ inr (ground (arith, k))
    ]
    | inr e ↦
        let g : Hit = (c.id, labels_in texts text_norm c) in
        elim (hits_from_founded cs (put_hit g hits) i (rw e at h)) [
          | inl k ↦ let old = rw (has_id-put_hit i g hits) at k in ground (arith, old)
          | inr k ↦ inr (ground (arith, k))
        ]
  ]

module _ {F : Type 0} ⦃f : Float F⦄ (texts : Texts F) (text : String) where
  resolve_mention-single :
      (candidates : List (CandidateRestaurant F)) (r : String × Option String)
      → resolve_mention texts text candidates ≡ some r
      → single_hit (mention_hits texts (texts.resolver.normalize_name text) candidates) ≡ some r
  unfolding resolve_mention
  resolve_mention-single candidates r h = ground (arith, h)

  -- Where `resolve_mention` answers with an id, a candidate of that id is named in the text, and
  -- every candidate that is named there has that id.
  pub resolve_mention_only :
      (candidates : List (CandidateRestaurant F)) (i : String) (label : Option String)
      → resolve_mention texts text candidates ≡ some (i, label)
      → let norm = texts.resolver.normalize_name text in
        (any (λ c. str_eq c.id i && not (is_empty (labels_in texts norm c))) candidates ≡ true)
        × All (λ c. IsNamed texts norm c → c.id ≡ i) candidates
  unfolding mention_hits
  resolve_mention_only candidates i label h =
      let norm = texts.resolver.normalize_name text in
      let (labels, only) =
        single_hit_id (mention_hits texts norm candidates) i label
          (resolve_mention-single candidates (i, label) h) in
      let there : has_id i (hits_from texts norm candidates []) ≡ true =
        rw only (ground (arith, eq_refl i)) in
      (
        elim (hits_from_founded texts norm candidates [] i there) [ inl k ↦ cc | inr k ↦ k ],
        All-map
            (λ c. IsNamed texts norm c → has_id c.id (hits_from texts norm candidates []) ≡ true)
            (λ c. IsNamed texts norm c → c.id ≡ i)
            (λ c h named. has_id_only i c.id labels (rw only at (h named))) candidates
            (hits_from-IsNamed texts norm candidates []),
      )

-- ===== src/Store.antt =====
-- The database session (backend/app/db/session.py) over the rows, and the results of service calls.
mod Rows
pub use Rows.*
use khaabo.Prelude.{
  ◌≡◌, refl, ℕ, Bool, true, false, Option, none, some, List, String, map, if◌then◌else◌, ◌==◌,
}

-- A request's session. `work` holds the objects as the code has changed them, `rows` what the
-- database holds: a query filters and counts `rows`. Both session makers say `autoflush=False`, so
-- changes reach `rows` only by `flush` and by the commit at the request's end.
pub record Session (F : Type 0) : Type 0 where
  pub rows : Store F
  pub work : Store F

pub data Error : Type 0 where
  forbidden not_found duplicate_review validation_error value_error : Error

-- A service call raises, and then `get_db` rolls back, or returns with the session.
pub data Result {ℓ} (A : Type ℓ) : Type ℓ where
  ok : A → Result A
  err : Error → Result A

infixl 5 ◌>>=◌
abbrev pub ◌>>=◌ {ℓ κ} : {A : Type ℓ} {B : Type κ} → Result A → (A → Result B) → Result B
ok a >>= g = g a
err e >>= g = err e

abbrev pub guard : Bool → Error → Result (Unit {0})
guard true e = ok tt
guard false e = err e

infixl 5 ◌>>◌
abbrev pub ◌>>◌ {ℓ} : {B : Type ℓ} → Result (Unit {0}) → Result B → Result B
m >> k = m >>= λ _. k

abbrev pub or_raise : {A : Type 0} → Option A → Error → Result A
or_raise none e = err e
or_raise (some a) e = ok a

module _ {F : Type 0} where
  abbrev pub open_session : Store F → Session F
  open_session db = record { rows = db; work = db }

  abbrev pub flush : Session F → Session F
  flush s = record { rows = s.work; work = s.work }

  -- `get_db`: the request runs on a new session; it commits on a clean exit and rolls back on an
  -- exception.
  unfoldable pub get_db :
      {A : Type 0} → (Session F → Result (A × Session F)) → Store F → Result A × Store F
  get_db request db = elim (request (open_session db)) [
    | ok (a, s) ↦ (ok a, s.work)
    | err e ↦ (err e, db)
  ]

-- The text of an id in a request: a UUID, or not.
pub data IdText : Type 0 where
  uuid : ℕ → IdText
  malformed : String → IdText

abbrev pub parse_uuid : IdText → Error → Result ℕ
parse_uuid (uuid i) e = ok i
parse_uuid (malformed t) e = err e

-- `UPDATE ... WHERE`, and a change of the loaded objects that fit.
abbrev pub update_where : {A : Type 0} → (A → Bool) → (A → A) → List A → List A
update_where test change rows = map (λ x. if test x then change x else x) rows

abbrev pub owned_by : {F : Type 0} → ℕ → Review F → Bool
owned_by user r = elim r.user_id [ none ↦ false | some u ↦ u == user ]

-- Inversion of a call that returned.
pub >>=-eq-ok {ℓ κ} :
    {A : Type ℓ} {B : Type κ} (m : Result A) (g : A → Result B) {b : B}
    → (m >>= g) ≡ ok b
    → (a : A) × (m ≡ ok a) × (g a ≡ ok b)
>>=-eq-ok (ok a) g h = (a, refl, h)
>>=-eq-ok (err e) g h = cc

pub guard-eq-ok {ℓ} :
    {B : Type ℓ} (b : Bool) (e : Error) (k : Result B) {x : B}
    → (guard b e >> k) ≡ ok x
    → (b ≡ true) × (k ≡ ok x)
guard-eq-ok true e k h = (refl, h)
guard-eq-ok false e k h = cc

pub or_raise-eq-ok :
    {A : Type 0} (o : Option A) (e : Error) {a : A} → or_raise o e ≡ ok a → o ≡ some a
or_raise-eq-ok none e h = cc
or_raise-eq-ok (some x) e h = cc

pub ok-injective {ℓ} : {A : Type ℓ} {a b : A} → ok a ≡ ok b → a ≡ b
ok-injective h = cc

pub err-ne-ok {ℓ} : {A : Type ℓ} {e : Error} {a : A} → err e ≡ ok a → ⊥
err-ne-ok h = cc

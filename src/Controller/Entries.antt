-- ===== src/Controller/Entries.antt =====
-- The laws of the controller's associations: entries by their keys.
use fz_daq.Prelude.{
  ℕ, zero, suc, ◌+◌, ◌<◌, ◌≡◌, refl, List, [], ◌∷◌, ◌++◌, true, false, ◌||◌, none, some, String,
  same, if◌then◌else◌, length, get_elem?, arith, eq_iff,
}
use fz_daq.Controller.Map.{find, has, put, erase, remove_at}

module _ {ℓ} {V : Type ℓ} where
  pub find-put :
      (j k : String) (v : V) (m : List (String × V))
      → find j (put k v m) ≡ (if same k j then some v else find j m)
  unfolding find put
  find-put j k v [] = refl
  find-put j k v ((i, w) ∷ m) = ground (arith, find-put j k v m, eq_iff k j, eq_iff i k, eq_iff i j)

  pub has-put :
      (j k : String) (v : V) (m : List (String × V)) → has j (put k v m) ≡ (same k j || has j m)
  unfolding has put
  has-put j k v [] = ground arith
  has-put j k v ((i, w) ∷ m) = ground (arith, has-put j k v m, eq_iff k j, eq_iff i k, eq_iff i j)

  pub find-erase :
      (j k : String) (m : List (String × V))
      → find j (erase k m) ≡ (if same k j then none else find j m)
  unfolding find erase
  find-erase j k [] = ground arith
  find-erase j k ((i, w) ∷ m) = ground (arith, find-erase j k m, eq_iff k j, eq_iff i k, eq_iff i j)

  pub has-erase :
      (j k : String) (m : List (String × V))
      → has j (erase k m) ≡ (if same k j then false else has j m)
  unfolding has erase
  has-erase j k [] = ground arith
  has-erase j k ((i, w) ∷ m) = ground (arith, has-erase j k m, eq_iff k j, eq_iff i k, eq_iff i j)

  pub has-append :
      (j k : String) (v : V) (d : List (String × V))
      → has j (d ++ (k, v) ∷ []) ≡ (has j d || same k j)
  unfolding has
  has-append j k v [] = ground arith
  has-append j k v ((i, w) ∷ d) = ground (arith, has-append j k v d)

  -- No key stands twice.
  abbrev pub NodupKeys : List (String × V) → Type 0
  NodupKeys [] = Unit {0}
  NodupKeys ((k, v) ∷ d) = (has k d ≡ false) × NodupKeys d

  pub NodupKeys-append :
      (k : String) (v : V) (d : List (String × V))
      → NodupKeys d
      → has k d ≡ false
      → NodupKeys (d ++ (k, v) ∷ [])
  unfolding has
  NodupKeys-append k v [] u h = (refl, tt)
  NodupKeys-append k v ((i, w) ∷ d) u h =
      ground (arith, NodupKeys-append k v d u.1, has-append i k v d, eq_iff i k, eq_iff k i, u.0)

  pub has-get_elem? :
      (d : List (String × V)) (i : ℕ) (k : String) (v : V)
      → get_elem? d i ≡ some (k, v)
      → has k d ≡ true
  unfolding has
  has-get_elem? [] i k v e = cc
  has-get_elem? ((j, w) ∷ d) zero k v e = ground (arith, eq_iff j k)
  has-get_elem? ((j, w) ∷ d) (suc i) k v e = ground (arith, has-get_elem? d i k v e)

  pub has-remove_at :
      (d : List (String × V)) (i : ℕ) (k : String) (v : V) (j : String)
      → NodupKeys d
      → get_elem? d i ≡ some (k, v)
      → has j (remove_at i d) ≡ (if same k j then false else has j d)
  unfolding has remove_at
  has-remove_at [] i k v j u e = cc
  has-remove_at ((h, w) ∷ d) zero k v j u e =
      ground (arith, eq_iff k j, eq_iff h k, eq_iff h j, u.0)
  has-remove_at ((h, w) ∷ d) (suc i) k v j u e = ground (
    arith,
    has-remove_at d i k v j u.1 e,
    has-get_elem? d i k v e,
    eq_iff k j,
    eq_iff h k,
    eq_iff h j,
    u.0,
  )

  pub NodupKeys-remove_at :
      (d : List (String × V)) (i : ℕ) (k : String) (v : V)
      → NodupKeys d
      → get_elem? d i ≡ some (k, v)
      → NodupKeys (remove_at i d)
  unfolding remove_at
  NodupKeys-remove_at [] i k v u e = cc
  NodupKeys-remove_at ((h, w) ∷ d) zero k v u e = u.1
  NodupKeys-remove_at ((h, w) ∷ d) (suc i) k v u e =
      ground (arith, NodupKeys-remove_at d i k v u.1 e, has-remove_at d i k v h u.1 e, u.0)

  pub length-remove_at :
      (d : List (String × V)) (i : ℕ) → i < length d → length (remove_at i d) + 1 ≡ length d
  unfolding remove_at
  length-remove_at [] i h = absurd (omega arith)
  length-remove_at (e ∷ d) zero h = omega arith
  length-remove_at (e ∷ d) (suc i) h = omega (arith, length-remove_at d i)

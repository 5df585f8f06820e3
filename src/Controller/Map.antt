-- ===== src/Controller/Map.antt =====
-- The nodes that the controller knows: `map` and `deque` of class FzController, `map_insert` and
-- `map_clean` of src/controller/map.cpp, and a round of `process_collector` of
-- src/controller/collector.cpp.
use fz_daq.Prelude.{
  ℕ, zero, suc, ◌+◌, ◌-◌, ◌%◌, List, [], ◌∷◌, ◌++◌, Bool, true, false, ◌||◌, Option, none, some,
  String, same, precedes, if◌then◌else◌, ltb, length, get_elem?, Result, ok, err, out_of_fuel,
  ◌>>=◌,
}
use fz_daq.Node.Report.{NodeReport}

module _ {ℓ} {V : Type ℓ} where
  unfoldable pub find : String → List (String × V) → Option V
  find k [] = none
  find k ((j, w) ∷ m) = let rest = find k m in if same j k then some w else rest

  unfoldable pub has : String → List (String × V) → Bool
  has k [] = false
  has k ((j, w) ∷ m) = same j k || has k m

  -- The entries are in the order of their keys.
  unfoldable pub put : String → V → List (String × V) → List (String × V)
  put k v [] = (k, v) ∷ []
  put k v ((j, w) ∷ m) =
      let rest = put k v m in
      if same j k then (j, v) ∷ m else if precedes k j then (k, v) ∷ (j, w) ∷ m else (j, w) ∷ rest

  unfoldable pub erase : String → List (String × V) → List (String × V)
  erase k [] = []
  erase k ((j, w) ∷ m) = let rest = erase k m in if same j k then rest else (j, w) ∷ rest

  unfoldable pub remove_at : ℕ → List (String × V) → List (String × V)
  remove_at i [] = []
  remove_at zero (e ∷ d) = d
  remove_at (suc i) (e ∷ d) = e ∷ remove_at i d

-- An entry of the deque is an iterator into the map, which is its key here, and a time.
pub record NodeMap : Type 0 where
  pub nodes : List (String × NodeReport)
  pub deque : List (String × ℕ)

abbrev pub u8 : ℕ → ℕ
u8 n = n % 256

abbrev pub expiry : ℕ
expiry = 10

-- if(deque[i].first->first == result.first->first) deque[i].second = time(NULL);
unfoldable pub touch : ℕ → String → ℕ → List (String × ℕ) → List (String × ℕ)
touch i k now [] = []
touch zero k now ((j, t) ∷ d) = (j, if same j k then now else t) ∷ d
touch (suc i) k now (e ∷ d) = e ∷ touch i k now d

-- The loop of `map_insert`, whose index has eight bits, with fuel.
unfoldable pub touch_all : ℕ → ℕ → String → ℕ → List (String × ℕ) → Result (List (String × ℕ))
unfolding touch
touch_all zero i k now d = err out_of_fuel
touch_all (suc fuel) i k now d =
    let rest = touch_all fuel (u8 (i + 1)) k now (touch i k now d) in
    if ltb i (length d) then rest else ok d

-- The map after the call, and whether the node is new.
unfoldable pub map_insert : ℕ → ℕ → String → NodeReport → NodeMap → Result (NodeMap × Bool)
unfolding touch_all has put
map_insert fuel now k v m =
    if has k m.nodes
    then (touch_all fuel 0 k now m.deque >>= λ d.
        ok (record { nodes = put k v m.nodes; deque = d }, false))
    else ok (record { nodes = put k v m.nodes; deque = m.deque ++ (k, now) ∷ [] }, true)

-- difftime(time(NULL), deque[i].second) > EXPIRY
abbrev pub expired : ℕ → ℕ → Bool
expired now t = ltb expiry (now - t)

unfoldable pub expire : ℕ → ℕ → NodeMap → NodeMap
unfolding erase remove_at
expire i now m = elim (get_elem? m.deque i) [
  | none ↦ m
  | some (k, t) ↦
      if expired now t then record { nodes = erase k m.nodes; deque = remove_at i m.deque } else m
]

-- The loop of `map_clean`, with fuel.
unfoldable pub clean_from : ℕ → ℕ → ℕ → NodeMap → Result NodeMap
unfolding expire
clean_from zero i now m = err out_of_fuel
clean_from (suc fuel) i now m =
    let rest = clean_from fuel (u8 (i + 1)) now (expire i now m) in
    if ltb i (length m.deque) then rest else ok m

unfoldable pub map_clean : ℕ → ℕ → NodeMap → Result NodeMap
unfolding clean_from
map_clean fuel now m = clean_from fuel 0 now m

-- A round of the collector: a report that was received and parsed, if any, and the cleaning.
unfoldable pub collector_round : ℕ → ℕ → Option NodeReport → NodeMap → Result NodeMap
unfolding map_insert map_clean
collector_round fuel now none m = map_clean fuel now m
collector_round fuel now (some r) m =
    map_insert fuel now r.hostname r m >>= λ p. map_clean fuel now p.0

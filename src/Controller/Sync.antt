-- ===== src/Controller/Sync.antt =====
-- The nodes that the controller knows stay the ones whose times it keeps: `map_insert`, `map_clean`
-- and the collector of src/controller/.
use fz_daq.Prelude.{
  ℕ, zero, suc, ◌+◌, ◌<◌, ◌≤◌, ◌≡◌, refl, sym, ap, ◌∙◌, inl, inr, List, [], ◌∷◌, ◌++◌, Bool, true,
  false, not, ◌||◌, ◌&&◌, Option, none, some, String, same, if◌then◌else◌, ltb, length, get_elem?,
  ok, arith, Bool-cases, Option-cases, if_both, eq_iff, map, Gives, Gives-bind, length-append,
}
use fz_daq.Node.Report.{NodeReport}
use fz_daq.Controller.Map.{
  NodeMap, find, has, put, erase, remove_at, map_insert, map_clean, clean_from, expire, expired, u8,
  collector_round,
}
use fz_daq.Controller.Entries.{
  find-put, has-put, find-erase, has-erase, has-append, NodupKeys, NodupKeys-append, has-get_elem?,
  has-remove_at, NodupKeys-remove_at, length-remove_at,
}
use fz_daq.Controller.Times.{has-map, NodupKeys-map, find-append, find-map, length-map}
use fz_daq.Controller.Loops.{touched, touch_all_ends}

-- The map and the deque have the same keys, each once in the deque.
pub record Sync (m : NodeMap) : Type 0 where
  pub once : NodupKeys m.deque
  pub agree : (k : String) → has k m.nodes ≡ has k m.deque

-- The node was heard of within the time that is allowed.
unfoldable pub live : String → ℕ → List (String × ℕ) → Bool
live k now [] = false
live k now ((j, t) ∷ d) = same j k && not (expired now t) || live k now d

live-has : (d : List (String × ℕ)) (k : String) (now : ℕ) → live k now d ≡ true → has k d ≡ true
unfolding live has
live-has [] k now l = cc
live-has ((j, t) ∷ d) k now l = ground (arith, live-has d k now)

live-get_elem? :
    (d : List (String × ℕ)) (i : ℕ) (k : String) (t now : ℕ)
    → NodupKeys d
    → live k now d ≡ true
    → get_elem? d i ≡ some (k, t)
    → expired now t ≡ false
unfolding live
live-get_elem? [] i k t now u l e = cc
live-get_elem? ((j, s) ∷ d) zero k t now u l e = ground (arith, live-has d k now, eq_iff j k, u.0)
live-get_elem? ((j, s) ∷ d) (suc i) k t now u l e =
    ground (arith, live-get_elem? d i k t now u.1, has-get_elem? d i k t e, eq_iff j k, u.0)

live-remove_at :
    (d : List (String × ℕ)) (i : ℕ) (k j : String) (t now : ℕ)
    → get_elem? d i ≡ some (j, t)
    → expired now t ≡ true
    → live k now (remove_at i d) ≡ live k now d
unfolding live remove_at
live-remove_at [] i k j t now e x = refl
live-remove_at ((h, s) ∷ d) zero k j t now e x = ground arith
live-remove_at ((h, s) ∷ d) (suc i) k j t now e x = ground (arith, live-remove_at d i k j t now e x)

-- What the cleaning keeps: the keys in step, and a live node with its report.
pub record Kept (k : String) (now : ℕ) (r : Option NodeReport) (m : NodeMap) : Type 0 where
  pub sync : Sync m
  pub alive : live k now m.deque ≡ true
  pub report : find k m.nodes ≡ r

module _ (now : ℕ) (m : NodeMap) (i : ℕ) (j : String) (t : ℕ) where
  removed-Sync :
      Sync m
      → get_elem? m.deque i ≡ some (j, t)
      → Sync (record { nodes = erase j m.nodes; deque = remove_at i m.deque })
  removed-Sync s e = record {
    once = NodupKeys-remove_at m.deque i j t s.once e;
    agree = λ k.
        has-erase k j m.nodes
        ∙ ap (λ b. if same j k then false else b) (s.agree k)
        ∙ sym (has-remove_at m.deque i j t k s.once e);
  }

  removed-Kept :
      (k : String) (r : Option NodeReport)
      → get_elem? m.deque i ≡ some (j, t)
      → expired now t ≡ true
      → Kept k now r m
      → Kept k now r (record { nodes = erase j m.nodes; deque = remove_at i m.deque })
  removed-Kept k r e x h = record {
    sync = removed-Sync h.sync e;
    alive = live-remove_at m.deque i k j t now e x ∙ h.alive;
    report =
        find-erase k j m.nodes
        ∙ if_both (λ (o : Option NodeReport). o ≡ r) (same j k) none _
            (λ f.
              let g : j ≡ k = (eq_iff j k).0 f in
              let l = live-get_elem? m.deque i k t now h.sync.once h.alive (rw (← g) e) in
              absurd (cc))
            (λ _. h.report);
  }

expire-cases :
    (P : NodeMap → Type 0) (i now : ℕ) (m : NodeMap)
    → P m
    → ((j : String) (t : ℕ)
        → get_elem? m.deque i ≡ some (j, t)
        → expired now t ≡ true
        → P (record { nodes = erase j m.nodes; deque = remove_at i m.deque }))
    → P (expire i now m)
unfolding expire
expire-cases P i now m p h = elim (Option-cases (get_elem? m.deque i)) [
  | inl e ↦ rw (e, expire) p
  | inr ((j, t), e) ↦ rw (e, expire) (if_both P (expired now t) _ m (h j t e) (λ _. p))
]

expire-Kept :
    (k : String) (r : Option NodeReport) (i now : ℕ) (m : NodeMap)
    → Kept k now r m
    → Kept k now r (expire i now m)
expire-Kept k r i now m h =
    expire-cases (Kept k now r) i now m h λ j t e x. removed-Kept now m i j t k r e x h

expire-Sync : (i now : ℕ) (m : NodeMap) → Sync m → Sync (expire i now m)
expire-Sync i now m h = expire-cases Sync i now m h λ j t e x. removed-Sync now m i j t h e

-- A step removes an entry at most.
expire-length :
    (i now : ℕ) (m : NodeMap)
    → i < length m.deque
    → (length (expire i now m).deque ≤ length m.deque)
      × (length m.deque ≤ length (expire i now m).deque + 1)
expire-length i now m h =
    expire-cases (λ t. (length t.deque ≤ length m.deque) × (length m.deque ≤ length t.deque + 1)) i
      now m (omega arith) λ j t e x. omega (arith, length-remove_at m.deque i h)

-- What every step keeps holds after the loop, which ends if there are fewer than 256 nodes.
clean_from-Gives :
    (P : NodeMap → Type 0) (now : ℕ)
    → ((i : ℕ) (m : NodeMap) → P m → P (expire i now m))
    → (fuel i : ℕ) (m : NodeMap) → length m.deque < 256
    → 0 < fuel
    → length m.deque < fuel + i
    → P m
    → Gives P (clean_from fuel i now m)
unfolding clean_from
clean_from-Gives P now keep zero i m h z f p = absurd (omega arith)
clean_from-Gives P now keep (suc fuel) i m h z f p = elim (Bool-cases (ltb i (length m.deque))) [
  | inl e ↦ rw e (
      let b : u8 (i + 1) ≡ suc i = ground arith in
      let l = expire-length i now m (ground arith) in
      rw b (
        clean_from-Gives P now keep fuel (suc i) (expire i now m) (omega arith) (ground arith)
          (omega arith) (keep i m p)))
  | inr e ↦ rw e p
]

-- With fewer than 256 nodes, of which the map and the deque have the same, `map_clean` ends within
-- 257 rounds and keeps them the same; a node that was heard of within the time allowed stays in
-- both, with its report, wherever it stands.
pub map_clean-Kept :
    (k : String) (r : Option NodeReport) (now : ℕ) (m : NodeMap)
    → length m.deque < 256
    → Kept k now r m
    → Gives (Kept k now r) (map_clean 257 now m)
unfolding map_clean
map_clean-Kept k r now m h p =
    clean_from-Gives (Kept k now r) now (λ i t q. expire-Kept k r i now t q) 257 0 m h (omega arith)
      (omega arith) p

live-map :
    (k : String) (now : ℕ) (d : List (String × ℕ))
    → has k d ≡ true
    → live k now (map (touched k now) d) ≡ true
unfolding live has
live-map k now [] h = cc
live-map k now ((j, t) ∷ d) h = ground (arith, live-map k now d)

live-append :
    (k : String) (now : ℕ) (d : List (String × ℕ)) → live k now (d ++ (k, now) ∷ []) ≡ true
unfolding live
live-append k now [] = ground (arith, eq_iff k k)
live-append k now ((j, t) ∷ d) = ground (arith, live-append k now d)

module _ (k : String) (r : NodeReport) (now : ℕ) (m : NodeMap) (s : Sync m) where
  put_report : find k (put k r m.nodes) ≡ some r
  put_report = ground (arith, find-put k k r m.nodes, eq_iff k k)

  -- The entries of a node that is known, and of one that is not.
  known-Kept :
      has k m.nodes ≡ true
      → Kept k now
          (some r)
          (record { nodes = put k r m.nodes; deque = map (touched k now) m.deque })
  known-Kept e = record {
    sync = record {
      once = NodupKeys-map k now m.deque s.once;
      agree = λ j.
          ground (arith, has-put j k r m.nodes, has-map k j now m.deque, s.agree j, eq_iff k j);
    };
    alive = live-map k now m.deque (sym (s.agree k) ∙ e);
    report = put_report;
  }

  new-Kept :
      has k m.nodes ≡ false
      → Kept k now (some r) (record { nodes = put k r m.nodes; deque = m.deque ++ (k, now) ∷ [] })
  new-Kept e = record {
    sync = record {
      once = NodupKeys-append k now m.deque s.once (sym (s.agree k) ∙ e);
      agree = λ j. ground (arith, has-put j k r m.nodes, has-append j k now m.deque, s.agree j);
    };
    alive = live-append k now m.deque;
    report = put_report;
  }

-- What `map_insert` promises: the node has this report and the present time, it is said to be new
-- exactly if it was not known, the other nodes keep their reports and their times, and there is at
-- most one more.
abbrev pub Inserted : String → NodeReport → ℕ → NodeMap → NodeMap × Bool → Type 0
Inserted k r now m p =
    Kept k now (some r) p.0
    × (p.1 ≡ not (has k m.nodes))
    × ((j : String) → find j p.0.nodes ≡ (if same k j then some r else find j m.nodes))
    × ((j : String) → find j p.0.deque ≡ (if same k j then some now else find j m.deque))
    × (length p.0.deque ≤ length m.deque + 1)

-- With fewer than 256 nodes, of which the map and the deque have the same, `map_insert` ends within
-- 256 rounds and keeps them the same: the node has this report and the present time, it is said to be
-- new exactly if it was not known, the other nodes keep their reports and their times, and there is
-- at most one node more.
pub map_insert-Inserted :
    (fuel : ℕ) (k : String) (r : NodeReport) (now : ℕ) (m : NodeMap)
    → 256 ≤ fuel
    → length m.deque < 256
    → Sync m
    → Gives (Inserted k r now m) (map_insert fuel now k r m)
unfolding map_insert
map_insert-Inserted fuel k r now m f h s = elim (Bool-cases (has k m.nodes)) [
  | inl e ↦ rw e (
      rw (touch_all_ends fuel k now m.deque f h) (
        known-Kept k r now m s e,
        sym (ap not e),
        λ j. find-put j k r m.nodes,
        λ j. find-map k j now m.deque (sym (s.agree k) ∙ e),
        omega (arith, length-map k now m.deque),
      ))
  | inr e ↦ rw e (
    new-Kept k r now m s e,
    sym (ap not e),
    λ j. find-put j k r m.nodes,
    λ j. find-append k j now m.deque (sym (s.agree k) ∙ e),
    omega (arith, length-append {0} m.deque ((k, now) ∷ [])),
  )
]

-- With fewer than 255 nodes in step, a round of the collector ends; if it received a report, the
-- node that it is from is kept with that report, and the keys of the map and of the deque agree.
pub collector_round-Kept :
    (r : NodeReport) (now : ℕ) (m : NodeMap)
    → length m.deque < 255
    → Sync m
    → Gives (Kept r.hostname now (some r)) (collector_round 257 now (some r) m)
unfolding collector_round
collector_round-Kept r now m h s =
    Gives-bind (Inserted r.hostname r now m) (Kept r.hostname now (some r))
      (map_insert 257 now r.hostname r m) (λ p. map_clean 257 now p.0)
      (map_insert-Inserted 257 r.hostname r now m (omega arith) (omega arith) s)
      λ p i. map_clean-Kept r.hostname (some r) now p.0 (omega (arith, i.4)) i.0

-- `map_clean` steps over the entry behind one that it removes: of two nodes side by side whose time
-- is over, the second stays.
pub map_clean_skips :
    (j k : String) (t u now : ℕ) (nodes : List (String × NodeReport))
    → expired now t ≡ true
    → map_clean 3 now (record { nodes = nodes; deque = (j, t) ∷ (k, u) ∷ [] })
      ≡ ok (record { nodes = erase j nodes; deque = (k, u) ∷ [] })
unfolding map_clean clean_from expire remove_at
map_clean_skips j k t u now nodes e = rw e refl

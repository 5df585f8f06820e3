-- ===== src/Weblog/Lines.antt =====
-- One row of a POST, and what a POST is made of: `AddToPost`, `NewLine` and `SendPost` of src/logger/FzHttpPost.cpp.
use fz_daq.Prelude.{
  ℕ, suc, ◌+◌, ◌<◌, ◌≡◌, refl, sym, ap, ◌∙◌, ◌⊎◌, inl, inr, List, [], ◌∷◌, ◌++◌, true, false, ◌==◌,
  String, if◌then◌else◌, length, arith, if_both,
}
use mathlib.Core.List.{append_assoc, append-nil}
use fz_daq.Weblog.{
  Key, Value, element, field, text, Post, add_key_value_pair, add_to_post, add_all, send_post,
  check_phplimit, new_line,
}

abbrev pub Row : Type 0
Row = List (String × Value)

-- The elements of a row with its number.
abbrev pub numbered : ℕ → Row → List (Key × Value)
numbered n [] = []
numbered n ((name, v) ∷ l) = (element n name, v) ∷ numbered n l

abbrev pub elements : ℕ → List Row → List (Key × Value)
elements n [] = []
elements n (l ∷ ls) = numbered n l ++ elements (suc n) ls

-- A POST of some rows, numbered from 0, with the header's fields.
abbrev pub post_of : String → String → List Row → List (Key × Value)
post_of user category ls =
    elements 0 ls ++ (field "user", text user) ∷ (field "category", text category) ∷ []

-- The number of pairs.
abbrev pub total : List Row → ℕ
total [] = 0
total (l ∷ ls) = length l + total ls

pub total-append : (ls ms : List Row) → total (ls ++ ms) ≡ total ls + total ms
total-append [] ms = omega arith
total-append (l ∷ ls) ms = omega (arith, total-append ls ms)

pub elements-snoc :
    (n : ℕ) (ls : List Row) (l : Row)
    → elements n (ls ++ l ∷ []) ≡ elements n ls ++ numbered (n + length ls) l
elements-snoc n [] l = append-nil (numbered n l) ∙ ap (λ m. numbered m l) (omega arith)
elements-snoc n (k ∷ ls) l =
    ap (λ xs. numbered n k ++ xs) (elements-snoc (suc n) ls l)
    ∙ sym (append_assoc (numbered n k) (elements (suc n) ls) (numbered (suc n + length ls) l))
    ∙ ap (λ m. (numbered n k ++ elements (suc n) ls) ++ numbered m l) (omega arith)

abbrev pub filled : Post → List (Key × Value) → ℕ → Post
filled p f n = record p { form = f; post_pairs = n }

pub filled_eq :
    (p : Post) (f g : List (Key × Value)) (m n : ℕ) → f ≡ g → m ≡ n → filled p f m ≡ filled p g n
filled_eq p f g m n e h = ap (λ x. filled p x m) e ∙ ap (λ k. filled p g k) h

-- What `AddToPost` leaves alone, and what it adds.
pub add_all-filled :
    (l : Row) (p : Post)
    → add_all l p ≡ filled p (p.form ++ numbered p.line_number l) (p.post_pairs + length l)
unfolding add_all add_to_post add_key_value_pair
add_all-filled [] p =
    filled_eq p p.form (p.form ++ []) p.post_pairs (p.post_pairs + 0) (sym (append-nil p.form))
      (omega arith)
add_all-filled ((name, v) ∷ l) p =
    add_all-filled l (add_to_post name v p)
    ∙ filled_eq p ((p.form ++ (element p.line_number name, v) ∷ []) ++ numbered p.line_number l)
        (p.form ++ (element p.line_number name, v) ∷ numbered p.line_number l)
        (suc p.post_pairs + length l) (p.post_pairs + suc (length l))
        (append_assoc p.form ((element p.line_number name, v) ∷ []) (numbered p.line_number l))
        (omega arith)

pub send_post-none : (p : Post) → (p.post_pairs == 0) ≡ true → send_post p ≡ p
unfolding send_post
send_post-none p e = rw e refl

pub line_width :
    (k : ℕ) (q : Post)
    → (q.pairs_per_line ≡ k) ⊎ ((q.pairs_per_line ≡ 0) × (q.post_pairs ≡ k))
    → 0 < k
    → (if q.pairs_per_line == 0 then record q { pairs_per_line = q.post_pairs } else q)
      ≡ record q { pairs_per_line = k }
line_width k q (inl e) h =
    if_both (λ (r : Post). r ≡ record q { pairs_per_line = k }) (q.pairs_per_line == 0) _ _
      (λ z. absurd (ground (arith, z, e, h))) λ _. ap (λ n. record q { pairs_per_line = n }) e
line_width k q (inr (z, e)) h =
    if_both (λ (r : Post). r ≡ record q { pairs_per_line = k }) (q.pairs_per_line == 0) _ _
      (λ _. ap (λ n. record q { pairs_per_line = n }) e) λ x. absurd (ground (arith, z, x))

-- A POST that goes: the header's fields are added, and nothing waits.
pub send_post-sent :
    (p : Post)
    → 0 < p.post_pairs
    → send_post p ≡ record p {
      form = [];
      line_number = 0;
      post_pairs = 0;
      posted =
          p.posted
          ++ ((p.form ++ (field "user", text p.user) ∷ [])
              ++ (field "category", text p.category) ∷ [])
            ∷ [];
    }
unfolding send_post add_key_value_pair
send_post-sent p h = let z : (p.post_pairs == 0) ≡ false = ground (arith, h) in rw z refl

pub new_line-width :
    (k : ℕ) (q : Post)
    → 0 < q.post_pairs
    → (q.pairs_per_line ≡ k) ⊎ ((q.pairs_per_line ≡ 0) × (q.post_pairs ≡ k))
    → 0 < k
    → let r = record q { pairs_per_line = k } in
      new_line q
      ≡ (if check_phplimit r then send_post r else record r { line_number = suc r.line_number })
unfolding new_line
new_line-width k q h w z =
    let turn = λ (r : Post).
      if check_phplimit r then send_post r else record r { line_number = suc r.line_number } in
    if_both (λ (x : Post). x ≡ turn (record q { pairs_per_line = k })) (q.post_pairs == 0) q
      (turn (if q.pairs_per_line == 0 then record q { pairs_per_line = q.post_pairs } else q))
      (λ e. absurd (ground (arith, e, h))) λ _. ap turn (line_width k q w z)

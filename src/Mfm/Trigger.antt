-- ===== src/Mfm/Trigger.antt =====
-- The loop over the trigger information in src/transmitter/main.cpp, word by word, and what the header
-- then says.
use fz_daq.Prelude.{
  ℕ, ◌+◌, ◌*◌, ◌/◌, ◌%◌, ◌<◌, ◌≡◌, refl, List, [], ◌∷◌, ◌==◌, arith, inl, inr, Bool-cases,
}
use fz_daq.Event.{FzTrigInfo}
use fz_daq.Mfm.{Header, cleared, or_byte, add_centrum, add_centrums}
use fz_daq.Mfm.Fields.{Centrum, place, place_all, slot, Single, Laid, join8, join12, join16}

cleared-Laid : Laid (record { w0 = 0; w1 = 0; w2 = 0; w3 = 0 }) cleared
cleared-Laid = record {
  small1 = omega arith;
  small2 = omega arith;
  small3 = omega arith;
  at8 = refl;
  at9 = refl;
  at10 = refl;
  at11 = refl;
  at12 = refl;
  at13 = refl;
  at14 = refl;
  at15 = refl;
  at16 = refl;
  at17 = refl;
  at18 = refl;
  at19 = refl;
}

place_w0 :
    (v : ℕ) (c : Centrum) (h : Header)
    → v < 1073741824
    → c.w0 ≡ 0
    → Laid c h
    → Laid (record c { w0 = v }) (record h { b8 = or_byte h.b8 (v % 64 * 4) })
place_w0 v c h b s l = record {
  small1 = l.small1;
  small2 = l.small2;
  small3 = l.small3;
  at8 = (join8 v c.w1 h.b8 l.small1).0 (omega (arith, l.at8, s));
  at9 = l.at9;
  at10 = l.at10;
  at11 = l.at11;
  at12 = l.at12;
  at13 = l.at13;
  at14 = l.at14;
  at15 = l.at15;
  at16 = l.at16;
  at17 = l.at17;
  at18 = l.at18;
  at19 = l.at19;
}

place_w1 :
    (v : ℕ) (c : Centrum) (h : Header)
    → v < 1073741824
    → c.w1 ≡ 0
    → Laid c h
    → Laid
        (record c { w1 = v })
        (record h {
          b8 = or_byte h.b8 (v / 268435456);
          b9 = v / 1048576 % 256;
          b10 = v / 4096 % 256;
          b11 = v / 16 % 256;
          b12 = or_byte h.b12 (v % 16 * 16);
        })
place_w1 v c h b s l = record {
  small1 = b;
  small2 = l.small2;
  small3 = l.small3;
  at8 = (join8 c.w0 v h.b8 b).1 (omega (arith, l.at8, s));
  at9 = refl;
  at10 = refl;
  at11 = refl;
  at12 = (join12 v c.w2 h.b12 l.small2).0 (omega (arith, l.at12, s));
  at13 = l.at13;
  at14 = l.at14;
  at15 = l.at15;
  at16 = l.at16;
  at17 = l.at17;
  at18 = l.at18;
  at19 = l.at19;
}

place_w2 :
    (v : ℕ) (c : Centrum) (h : Header)
    → v < 1073741824
    → c.w2 ≡ 0
    → Laid c h
    → Laid
        (record c { w2 = v })
        (record h {
          b12 = or_byte h.b12 (v / 67108864);
          b13 = v / 262144 % 256;
          b14 = v / 1024 % 256;
          b15 = v / 4 % 256;
          b16 = or_byte h.b16 (v % 4 * 64);
        })
place_w2 v c h b s l = record {
  small1 = l.small1;
  small2 = b;
  small3 = l.small3;
  at8 = l.at8;
  at9 = l.at9;
  at10 = l.at10;
  at11 = l.at11;
  at12 = (join12 c.w1 v h.b12 b).1 (omega (arith, l.at12, s));
  at13 = refl;
  at14 = refl;
  at15 = refl;
  at16 = (join16 v c.w3 h.b16 l.small3).0 (omega (arith, l.at16, s));
  at17 = l.at17;
  at18 = l.at18;
  at19 = l.at19;
}

place_w3 :
    (v : ℕ) (c : Centrum) (h : Header)
    → v < 1073741824
    → c.w3 ≡ 0
    → Laid c h
    → Laid
        (record c { w3 = v })
        (record h {
          b16 = or_byte h.b16 (v / 16777216);
          b17 = v / 65536 % 256;
          b18 = v / 256 % 256;
          b19 = v % 256;
        })
place_w3 v c h b s l = record {
  small1 = l.small1;
  small2 = l.small2;
  small3 = b;
  at8 = l.at8;
  at9 = l.at9;
  at10 = l.at10;
  at11 = l.at11;
  at12 = l.at12;
  at13 = l.at13;
  at14 = l.at14;
  at15 = l.at15;
  at16 = (join16 c.w2 v h.b16 b).1 (omega (arith, l.at16, s));
  at17 = refl;
  at18 = refl;
  at19 = refl;
}

add_centrum-Laid :
    (t : FzTrigInfo) (c : Centrum) (h : Header)
    → t.value < 1073741824
    → slot t c ≡ 0
    → Laid c h
    → Laid (place t c) (add_centrum t h)
unfolding add_centrum
add_centrum-Laid t c h v = elim (Bool-cases (t.id == 0x200)) [
  | inl e ↦ rw e (place_w0 t.value c h v)
  | inr e ↦ rw e (elim (Bool-cases (t.id == 0x201)) [
    | inl f ↦ rw f (place_w1 t.value c h v)
    | inr f ↦ rw f (elim (Bool-cases (t.id == 0x202)) [
      | inl g ↦ rw g (place_w2 t.value c h v)
      | inr g ↦ rw g (elim (Bool-cases (t.id == 0x203)) [
        | inl k ↦ rw k (place_w3 t.value c h v)
        | inr k ↦ rw k λ s l. l
      ])
    ])
  ])
]

add_centrums-Laid :
    (ts : List FzTrigInfo) (c : Centrum) (h : Header)
    → Single ts c
    → Laid c h
    → Laid (place_all ts c) (add_centrums ts h)
unfolding add_centrums
add_centrums-Laid [] c h s l = l
add_centrums-Laid (t ∷ ts) c h s l =
    add_centrums-Laid ts (place t c) (add_centrum t h) s.2 (add_centrum-Laid t c h s.0 s.1 l)

abbrev pub no_words : Centrum
no_words = record { w0 = 0; w1 = 0; w2 = 0; w3 = 0 }

-- Bytes 8 to 13 as one number, 14 to 17, and 18 and 19.
abbrev pub timestamp : Header → ℕ
timestamp h = ((((h.b8 * 256 + h.b9) * 256 + h.b10) * 256 + h.b11) * 256 + h.b12) * 256 + h.b13

abbrev pub event_counter : Header → ℕ
event_counter h = ((h.b14 * 256 + h.b15) * 256 + h.b16) * 256 + h.b17

abbrev pub centrum_crc : Header → ℕ
centrum_crc h = h.b18 * 256 + h.b19

word1 :
    (w : ℕ)
    → w < 1073741824
    → (((w / 268435456 * 256 + w / 1048576 % 256) * 256 + w / 4096 % 256) * 256 + w / 16 % 256) * 16
        + w % 16
      ≡ w
word1 w h = omega (arith, h)

word2 : (w : ℕ) → w / 67108864 * 256 + w / 262144 % 256 ≡ w / 262144
word2 w = omega arith

word2_low : (w : ℕ) → ((w / 1024 % 256) * 256 + w / 4 % 256) * 4 + w % 4 ≡ w % 262144
word2_low w = omega arith

word3 : (w : ℕ) → w / 16777216 * 256 + w / 65536 % 256 ≡ w / 65536
word3 w = omega arith

word3_low : (w : ℕ) → (w / 256 % 256) * 256 + w % 256 ≡ w % 65536
word3_low w = omega arith

-- When the event's trigger information gives each word of the centrum once at most and in 30 bits,
-- whatever the order and whatever else it holds, the loop leaves in the header the timestamp (the low
-- 6 bits of word 0, the whole of word 1 and the high 12 bits of word 2), the event counter (the low
-- 18 bits of word 2 and the high 14 bits of word 3) and the CRC (the low 16 bits of word 3), each
-- with the high byte first.
pub add_centrums-fields :
    (ts : List FzTrigInfo)
    → Single ts no_words
    → (timestamp (add_centrums ts cleared)
        ≡ (place_all ts no_words).w0 % 64 * 4398046511104
          + (place_all ts no_words).w1 * 4096
          + (place_all ts no_words).w2 / 262144)
      × (event_counter (add_centrums ts cleared)
          ≡ (place_all ts no_words).w2 % 262144 * 16384 + (place_all ts no_words).w3 / 65536)
      × (centrum_crc (add_centrums ts cleared) ≡ (place_all ts no_words).w3 % 65536)
add_centrums-fields ts s =
    let l = add_centrums-Laid ts no_words cleared s cleared-Laid in
    let c = place_all ts no_words in
    let u = word1 c.w1 l.small1 in
    let v = word2 c.w2 in
    (
      omega (arith, l.at8, l.at9, l.at10, l.at11, l.at12, l.at13, u, v),
      omega (arith, l.at14, l.at15, l.at16, l.at17, word2_low c.w2, word3 c.w3),
      omega (arith, l.at18, l.at19, word3_low c.w3),
    )

-- ===== src/Util/Hash.antt =====
-- util/hash.h and util/hash.cpp: Bob Jenkins' hash, on 32-bit words. A byte of a string is a
-- number below 256; a `char` is signed, so `extend` widens it as the conversions in the source do.
use lean.Base.{
  zero, suc, ℕ, ◌+◌, ◌-◌, ◌*◌, ◌/◌, ◌%◌, ◌^◌, List, [], ◌∷◌, ltb, if◌then◌else◌, add32, sub32,
  get_or, length,
}
use Prim.Native.Nat.{bit_xor}

abbrev shl : ℕ → ℕ → ℕ
shl x k = x * 2 ^ k % 4294967296

abbrev shr : ℕ → ℕ → ℕ
shr x k = x / 2 ^ k

-- The three words of the internal state.
pub record State : Type 0 where
  pub a : ℕ
  pub b : ℕ
  pub c : ℕ

-- One group of three assignments of `mix`, with its three shifts.
abbrev round : ℕ → ℕ → ℕ → State → State
round i j k s =
    let a = bit_xor (sub32 (sub32 s.a s.b) s.c) (shr s.c i) in
    let b = bit_xor (sub32 (sub32 s.b s.c) a) (shl a j) in
    let c = bit_xor (sub32 (sub32 s.c a) b) (shr b k) in record { a = a; b = b; c = c }

unfoldable pub mix : State → State
mix s = round 3 10 15 (round 12 16 5 (round 13 8 13 s))

unfoldable pub hash : ℕ → ℕ → ℕ
hash h1 h2 =
    let x = bit_xor (sub32 h2 h1) (shl h1 8) in
    let y = sub32 h1 x in let z = bit_xor x (shl y 16) in let w = sub32 z y in bit_xor w (shl y 10)

abbrev extend : ℕ → ℕ
extend b = if ltb b 128 then b else 4294967296 + b - 256

-- The byte `str[i]` shifted left, 0 where the switch has not been entered that high.
abbrev byte : List ℕ → ℕ → ℕ → ℕ
byte s i k = shl (extend (get_or s i 0)) k

-- `reinterpret_cast<unsigned const *>(str)[i]`, little endian.
abbrev word : List ℕ → ℕ → ℕ
word s i =
    get_or s (4 * i) 0
    + (get_or s (4 * i + 1) 0) * 2 ^ 8
    + (get_or s (4 * i + 2) 0) * 2 ^ 16
    + (get_or s (4 * i + 3) 0) * 2 ^ 24

-- The last bytes, by the fall-through switch.
abbrev last_bytes : List ℕ → ℕ → State → State
last_bytes s n st = record {
  a = add32 (add32 (add32 (add32 st.a (byte s 3 24)) (byte s 2 16)) (byte s 1 8)) (byte s 0 0);
  b = add32 (add32 (add32 (add32 st.b (byte s 7 24)) (byte s 6 16)) (byte s 5 8)) (byte s 4 0);
  c = add32 (add32 (add32 (add32 st.c n) (byte s 10 24)) (byte s 9 16)) (byte s 8 8);
}

-- The main loop takes twelve bytes at a time; the other clause handles the tail and reports `c`.
hash_bytes : ℕ → List ℕ → State → ℕ
unfolding mix
hash_bytes n (b0 ∷ b1 ∷ b2 ∷ b3 ∷ b4 ∷ b5 ∷ b6 ∷ b7 ∷ b8 ∷ b9 ∷ b10 ∷ b11 ∷ rest) st =
    let s = b0 ∷ b1 ∷ b2 ∷ b3 ∷ b4 ∷ b5 ∷ b6 ∷ b7 ∷ b8 ∷ b9 ∷ b10 ∷ b11 ∷ [] in
    hash_bytes n rest (
      mix (record {
        a = add32 st.a (word s 0);
        b = add32 st.b (word s 1);
        c = add32 st.c (word s 2);
      }))
hash_bytes n s st = (mix (last_bytes s n st)).c

unfoldable pub hash_str : List ℕ → ℕ → ℕ
unfolding hash_bytes
hash_str s init = hash_bytes (length s) s (record { a = 2654435769; b = 2654435769; c = init })

-- The template `hash(n, h, init_value)`, on the list of the values of `h`: the loop of its last
-- case, which takes three values at a time from the end, and the cases of up to three values.
hash_loop : List ℕ → ℕ → State → State
unfolding mix
hash_loop s (suc (suc (suc n))) st = hash_loop s n (
    mix (record {
      a = add32 st.a (get_or s (n + 2) 0);
      b = add32 st.b (get_or s (n + 1) 0);
      c = add32 st.c (get_or s n 0);
    }))
hash_loop s n st = st

-- The values that the loop has left, and `init_value`.
last_values : List ℕ → ℕ → ℕ → State → State
last_values s (suc zero) init st = record {
  a = add32 st.a init;
  b = st.b;
  c = add32 st.c (get_or s 0 0);
}
last_values s (suc (suc zero)) init st = record {
  a = add32 st.a init;
  b = add32 st.b (get_or s 1 0);
  c = add32 st.c (get_or s 0 0);
}
last_values s n init st = record { a = add32 st.a init; b = st.b; c = st.c }

abbrev golden : State
golden = record { a = 2654435769; b = 2654435769; c = 11 }

unfoldable pub hash_values : List ℕ → ℕ → ℕ
unfolding hash_loop last_values mix
hash_values (x ∷ []) init = (mix (record { a = add32 golden.a init; b = x; c = golden.c })).c
hash_values (x ∷ y ∷ []) init =
    (mix (record { a = add32 golden.a init; b = add32 golden.b x; c = add32 golden.c y })).c
hash_values (x ∷ y ∷ z ∷ []) init =
    let st = mix (record { a = add32 golden.a x; b = add32 golden.b y; c = add32 golden.c z }) in
    (mix (record { a = add32 st.a init; b = st.b; c = st.c })).c
hash_values s init = (mix (last_values s (length s % 3) init (hash_loop s (length s) golden))).c

-- ===== src/Protocol/Json/SymbolId.antt =====
-- The hash of symbol names, by the digits of the exclusive or.
use Prim.Native.Nat.{bit_xor, bit_xor-bitwise, differ, digits}
use order_matching_engine_ru.Prelude.{
  ℕ, zero, suc, ◌+◌, ◌*◌, ◌/◌, ◌%◌, ◌^◌, ◌≤◌, ◌<◌, ◌≡◌, ◌≢◌, refl, sym, ap, ◌∙◌, [], ◌∷◌, ◌++◌,
  arith, All,
}
use order_matching_engine_ru.Prelude.Bytes.{IsByte}
use native.Mathlib.Nat.{pow-suc}
use order_matching_engine_ru.Protocol.Json.{Str, hash_byte, hash_from, symbol_to_id}

abbrev xor_digits : ℕ → ℕ → ℕ → ℕ
xor_digits n a b = digits (λ b. b) differ n a b

xor_digits_fuel : (n m a b : ℕ) → a ≤ n → a ≤ m → xor_digits n a b ≡ xor_digits m a b
xor_digits_fuel zero zero a b p q = refl
xor_digits_fuel zero (suc m) zero b p q = refl
xor_digits_fuel zero (suc m) (suc a) b p q = absurd (omega arith)
xor_digits_fuel (suc n) zero zero b p q = refl
xor_digits_fuel (suc n) zero (suc a) b p q = absurd (omega arith)
xor_digits_fuel (suc n) (suc m) zero b p q = refl
xor_digits_fuel (suc n) (suc m) (suc a) b p q =
    omega (arith, xor_digits_fuel n m (suc a / 2) (b / 2) (omega arith) (omega arith))

zero-bit_xor : (b : ℕ) → bit_xor 0 b ≡ b
zero-bit_xor b = bit_xor-bitwise 0 b

abbrev digit : ℕ → ℕ → ℕ
digit a b = (a + b) % 2

differ-digit : (a b : ℕ) → a < 2 → b < 2 → differ a b ≡ digit a b
differ-digit zero b p q = omega arith
differ-digit (suc zero) zero p q = refl
differ-digit (suc zero) (suc zero) p q = refl
differ-digit (suc zero) (suc (suc b)) p q = absurd (omega arith)
differ-digit (suc (suc a)) b p q = absurd (omega arith)

pub bit_xor_step : (a b : ℕ) → bit_xor a b ≡ bit_xor (a / 2) (b / 2) * 2 + digit (a % 2) (b % 2)
bit_xor_step zero b = omega (arith, zero-bit_xor b, zero-bit_xor (b / 2))
bit_xor_step (suc a) b = omega (
  arith,
  bit_xor-bitwise (suc a) b,
  bit_xor-bitwise (suc a / 2) (b / 2),
  xor_digits_fuel a (suc a / 2) (suc a / 2) (b / 2) (omega arith) (omega arith),
  differ-digit (suc a % 2) (b % 2) (omega arith) (omega arith),
)

bit_xor-twice_below : (n a b : ℕ) → a + b ≤ n → bit_xor (bit_xor a b) b ≡ a
bit_xor-twice_below n zero zero h = refl
bit_xor-twice_below zero (suc a) b h = absurd (omega arith)
bit_xor-twice_below zero zero (suc b) h = absurd (omega arith)
bit_xor-twice_below (suc n) a b h =
    let step = bit_xor_step a b in
    let again = bit_xor_step (bit_xor a b) b in
    let half : bit_xor a b / 2 ≡ bit_xor (a / 2) (b / 2) = omega (arith, step) in
    let same : bit_xor (bit_xor a b / 2) (b / 2) ≡ a / 2 =
      ap (λ x. bit_xor x (b / 2)) half ∙ bit_xor-twice_below n (a / 2) (b / 2) (omega arith) in
    omega (arith, step, again, half, same)

-- Writing the same bits twice takes them out.
bit_xor-twice : (a b : ℕ) → bit_xor (bit_xor a b) b ≡ a
bit_xor-twice a b = bit_xor-twice_below (a + b) a b (omega arith)

bit_xor_comm_below : (n a b : ℕ) → a + b ≤ n → bit_xor a b ≡ bit_xor b a
bit_xor_comm_below n zero zero h = refl
bit_xor_comm_below zero (suc a) b h = absurd (omega arith)
bit_xor_comm_below zero zero (suc b) h = absurd (omega arith)
bit_xor_comm_below (suc n) a b h =
    omega (
      arith,
      bit_xor_step a b,
      bit_xor_step b a,
      bit_xor_comm_below n (a / 2) (b / 2) (omega arith),
    )

bit_xor_comm : (a b : ℕ) → bit_xor a b ≡ bit_xor b a
bit_xor_comm a b = bit_xor_comm_below (a + b) a b (omega arith)

bit_xor-lt : (n a b : ℕ) → a < 2 ^ n → b < 2 ^ n → bit_xor a b < 2 ^ n
bit_xor-lt zero a b p q =
    let no_a : a ≡ 0 = omega (arith, p) in
    let no_b : b ≡ 0 = omega (arith, q) in rw (no_a, no_b) (omega (arith, zero-bit_xor 0))
bit_xor-lt (suc n) a b p q = omega (
  arith,
  pow-suc 2 n,
  bit_xor_step a b,
  bit_xor-lt n (a / 2) (b / 2) (omega (arith, pow-suc 2 n)) (omega (arith, pow-suc 2 n)),
)

-- The multiplier of the hash has an inverse modulo 2 ^ 32.
unscale : (x : ℕ) → x < 2 ^ 32 → ((x * 0x01000193) % 2 ^ 32 * 899433627) % 2 ^ 32 ≡ x
unscale x h = omega arith

hash_byte-lt : (h b : ℕ) → hash_byte h b < 2 ^ 32
unfolding hash_byte
hash_byte-lt h b = omega arith

hash_byte-xor :
    (g h b c : ℕ)
    → g < 2 ^ 32
    → h < 2 ^ 32
    → b < 256
    → c < 256
    → hash_byte g b ≡ hash_byte h c
    → bit_xor g b ≡ bit_xor h c
unfolding hash_byte
hash_byte-xor g h b c p q u v e =
    sym (unscale (bit_xor g b) (bit_xor-lt 32 g b p (omega arith)))
    ∙ ap (λ x. (x * 899433627) % 2 ^ 32) e
    ∙ unscale (bit_xor h c) (bit_xor-lt 32 h c q (omega arith))

bit_xor-inj_left : (g h b : ℕ) → bit_xor g b ≡ bit_xor h b → g ≡ h
bit_xor-inj_left g h b e = sym (bit_xor-twice g b) ∙ ap (λ x. bit_xor x b) e ∙ bit_xor-twice h b

bit_xor-inj_right : (h b c : ℕ) → bit_xor h b ≡ bit_xor h c → b ≡ c
bit_xor-inj_right h b c e = bit_xor-inj_left b c h (bit_xor_comm b h ∙ e ∙ bit_xor_comm h c)

hash_from-inj :
    (g h : ℕ) (bs : Str)
    → g < 2 ^ 32
    → h < 2 ^ 32
    → All IsByte bs
    → hash_from g bs ≡ hash_from h bs
    → g ≡ h
unfolding hash_from
hash_from-inj g h [] p q bytes e = e
hash_from-inj g h (b ∷ bs) p q (byte, bytes) e = bit_xor-inj_left g h b (
    hash_byte-xor g h b b p q byte byte (
      hash_from-inj (hash_byte g b) (hash_byte h b) bs (hash_byte-lt g b) (hash_byte-lt h b) bytes
        e))

hash_from-lt : (h : ℕ) (bs : Str) → h < 2 ^ 32 → hash_from h bs < 2 ^ 32
unfolding hash_from
hash_from-lt h [] p = p
hash_from-lt h (b ∷ bs) p = hash_from-lt (hash_byte h b) bs (hash_byte-lt h b)

-- The id of a symbol is a `u32`.
pub symbol_to_id-lt : (s : Str) → symbol_to_id s < 2 ^ 32
unfolding symbol_to_id
symbol_to_id-lt s = hash_from-lt 0x811c9dc5 s (omega arith)

hash_from-append : (h : ℕ) (xs ys : Str) → hash_from h (xs ++ ys) ≡ hash_from (hash_from h xs) ys
unfolding hash_from
hash_from-append h [] ys = refl
hash_from-append h (x ∷ xs) ys = hash_from-append (hash_byte h x) xs ys

-- Two symbols of the same length that differ in one byte have different ids.
symbol_to_id_ne :
    (xs ys : Str) (b c : ℕ)
    → All IsByte ys
    → b < 256
    → c < 256
    → b ≢ c
    → symbol_to_id (xs ++ b ∷ ys) ≢ symbol_to_id (xs ++ c ∷ ys)
unfolding symbol_to_id hash_from
symbol_to_id_ne xs ys b c bytes u v other e =
    let h = hash_from 0x811c9dc5 xs in
    let small = hash_from-lt 0x811c9dc5 xs (omega arith) in
    let tails : hash_from (hash_byte h b) ys ≡ hash_from (hash_byte h c) ys =
      sym (hash_from-append 0x811c9dc5 xs (b ∷ ys)) ∙ e ∙ hash_from-append 0x811c9dc5 xs (c ∷ ys) in
    let heads =
      hash_from-inj (hash_byte h b) (hash_byte h c) ys (hash_byte-lt h b) (hash_byte-lt h c) bytes
        tails in
    other (bit_xor-inj_right h b c (hash_byte-xor h h b c small small u v heads))

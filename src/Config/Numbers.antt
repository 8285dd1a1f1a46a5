-- ===== src/Config/Numbers.antt =====
-- Numbers in the environment: reading what `strconv.Itoa` has written.
use share_trip.Base.{
  ℕ, zero, suc, ◌+◌, ◌-◌, ◌*◌, ◌/◌, ◌%◌, ◌<◌, String, ◌<>◌, false, ◌≡◌, refl, ap, ◌∙◌, some, arith,
  ltb, leb, if◌then◌else◌, Bool-cases, inl, inr,
}
use share_trip.Base.Int.{pos}
use share_trip.Base.Text.{digit_text, decimal, itoa, is_empty}
use share_trip.Service.Validate.{is_blank}
use share_trip.Base.Text.{trim_space}
use share_trip.GoError.{message, annotated}
use share_trip.Result.{ok, err}
use share_trip.Config.{
  digits_value, number, in_range, atoi, Environment, env_or, parse_int, max_int64,
}
use Prim.Native.Char.{code}
use Prim.Native.String.append

append-is_empty : (s t : String) → is_empty t ≡ false → is_empty (s <> t) ≡ false
append-is_empty String.[] t h = rw (append.nil t) h
append-is_empty (String.◌∷◌ c s) t h = rw (append.cons c s t) refl

digits_value-append :
    (acc : ℕ) (s t : String) {v : ℕ}
    → digits_value acc s ≡ some v
    → digits_value acc (s <> t) ≡ digits_value v t
unfolding digits_value
digits_value-append acc String.[] t h = rw (append.nil t) (ground arith)
digits_value-append acc (String.◌∷◌ c s) t {v} h =
    let ih = λ (p : digits_value (acc * 10 + (code c - b'0')) s ≡ some v).
      digits_value-append (acc * 10 + (code c - b'0')) s t p in
    rw (append.cons c s t) (ground (arith, ih))

digit_text_lem :
    (acc d : ℕ)
    → d < 10
    → (digits_value acc (digit_text d) ≡ some (acc * 10 + d)) × (is_empty (digit_text d) ≡ false)
unfolding digits_value
digit_text_lem acc zero h = (ground arith, refl)
digit_text_lem acc (suc zero) h = (ground arith, refl)
digit_text_lem acc (suc (suc zero)) h = (ground arith, refl)
digit_text_lem acc (suc (suc (suc zero))) h = (ground arith, refl)
digit_text_lem acc (suc (suc (suc (suc zero)))) h = (ground arith, refl)
digit_text_lem acc (suc (suc (suc (suc (suc zero))))) h = (ground arith, refl)
digit_text_lem acc (suc (suc (suc (suc (suc (suc zero)))))) h = (ground arith, refl)
digit_text_lem acc (suc (suc (suc (suc (suc (suc (suc zero))))))) h = (ground arith, refl)
digit_text_lem acc (suc (suc (suc (suc (suc (suc (suc (suc zero)))))))) h = (ground arith, refl)
digit_text_lem acc (suc (suc (suc (suc (suc (suc (suc (suc (suc n))))))))) h = (ground arith, refl)

-- One more than the number is fuel enough.
decimal_lem :
    (fuel n : ℕ)
    → n < fuel
    → (digits_value 0 (decimal fuel n) ≡ some n) × (is_empty (decimal fuel n) ≡ false)
unfolding decimal
decimal_lem zero n h = absurd (omega arith)
decimal_lem (suc fuel) n h = elim (Bool-cases (ltb n 10)) [
  | inl small ↦
      let (v, e) = digit_text_lem 0 n (ground arith) in
      let same : 0 * 10 + n ≡ n = omega arith in rw small (v ∙ ap some same, e)
  | inr large ↦
      let (v, e) = decimal_lem fuel (n / 10) (ground arith) in
      let (w, f) = digit_text_lem (n / 10) (n % 10) (omega arith) in
      let whole : n / 10 * 10 + n % 10 ≡ n = omega arith in
      rw large (
        digits_value-append 0 (decimal fuel (n / 10)) (digit_text (n % 10)) v ∙ w ∙ ap some whole,
        append-is_empty (decimal fuel (n / 10)) (digit_text (n % 10)) f,
      )
]

-- Reading what `strconv.Itoa` has written.
pub number-itoa : (n : ℕ) → number (itoa n) ≡ some n
unfolding number itoa
number-itoa n = let (value, full) = decimal_lem (suc n) n (omega arith) in rw full value

-- A text of digits is not blank.
pub number-is_blank : (s : String) {n : ℕ} → number s ≡ some n → is_blank s ≡ false
unfolding number digits_value trim_space
number-is_blank String.[] h = absurd (ground arith)
number-is_blank (String.◌∷◌ c s) h = ground arith

atoi-eq-in_range :
    (s : String) {v : ℕ}
    → is_empty s ≡ false
    → digits_value 0 s ≡ some v
    → atoi s ≡ in_range (some v)
unfolding atoi number digits_value
atoi-eq-in_range String.[] e h = absurd (ground arith)
atoi-eq-in_range (String.◌∷◌ c s) e h = ground arith

-- A variable that holds the digits of a number is read as that number if it fits into 63 bits, and
-- refused with an error if it does not.
pub parse_int-itoa :
    (getenv : Environment) (key fallback : String) (n : ℕ)
    → getenv key ≡ itoa n
    → parse_int getenv key fallback ≡ (
        if leb n max_int64
        then ok (pos n)
        else err (annotated ("parse " <> key) (message "invalid syntax or value out of range")))
unfolding parse_int env_or itoa
parse_int-itoa getenv key fallback n h =
    let (value, full) = decimal_lem (suc n) n (omega arith) in
    let read = atoi-eq-in_range (decimal (suc n) n) full value in ground arith

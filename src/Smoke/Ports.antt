-- ===== src/Smoke/Ports.antt =====
-- The ports that apps/udp_smoke.cpp accepts.
use low_latency_event_engine.Base.{
  ℕ, zero, suc, ◌≤◌, ◌≡◌, ◌≢◌, ◌↔◌, ◌⊎◌, inl, inr, refl, sym, ap, ◌∙◌, arith, true, false, not,
  ◌||◌, ◌==◌, ltb, Bool-cases, ℤ, pos, is_empty, List, [], ◌∷◌, Option, none, some, all,
}
use low_latency_event_engine.Os.{Name}
use low_latency_event_engine.Smoke.{
  negate, is_digit, span_digits, decimal, from_digits, from_chars, check_port, parse_port,
}

-- A text that is nothing but digits, and its number is a port.
pub record IsPort (text : Name) (n : ℕ) : Type 0 where
  pub nonempty : text ≢ []
  pub digits : all is_digit text ≡ true
  pub number : decimal 0 text ≡ n
  pub at_least : 1 ≤ n
  pub at_most : n ≤ 65535

span_digits-all : (text : Name) → all is_digit text ≡ true → span_digits text ≡ (text, [])
span_digits-all [] h = refl
span_digits-all (c ∷ cs) h =
    let rest = span_digits-all cs (grind arith) in
    let digit : is_digit c ≡ true = grind arith in rw (digit, rest) refl

span_digits-IsDigits :
    (text : Name)
    → (span_digits text).1 ≡ []
    → ((span_digits text).0 ≡ text) × (all is_digit text ≡ true)
span_digits-IsDigits [] h = (refl, refl)
span_digits-IsDigits (c ∷ cs) h = elim (Bool-cases (is_digit c)) [
  | inl digit ↦
      let (front, digits) = span_digits-IsDigits cs (rw digit at h) in
      rw digit (ap (λ xs. c ∷ xs) front, digits)
  | inr other ↦ absurd (grind (arith, rw other at h))
]

is_empty-true : {A : Type 0} (xs : List A) → is_empty xs ≡ true → xs ≡ []
is_empty-true [] e = refl
is_empty-true (x ∷ xs) e = absurd (grind arith)

from_digits-cases :
    (digits rest : Name)
    → (from_digits false (digits, rest) ≡ none)
      ⊎ (from_digits false (digits, rest) ≡ some (pos (decimal 0 digits), rest))
unfolding from_digits
from_digits-cases digits rest = ground arith

from_digits-minus :
    (digits rest : Name)
    → (from_digits true (digits, rest) ≡ none)
      ⊎ (from_digits true (digits, rest) ≡ some (negate (decimal 0 digits), rest))
unfolding from_digits
from_digits-minus digits rest = ground arith

check_port-negate : (m : ℕ) (rest : Name) → check_port (negate m, rest) ≡ none
unfolding check_port
check_port-negate zero rest = ground arith
check_port-negate (suc m) rest = refl

check_port-some :
    (m n : ℕ) (rest : Name)
    → check_port (pos m, rest) ≡ some n
    → (rest ≡ []) × (m ≡ n) × (1 ≤ m) × (m ≤ 65535)
unfolding check_port
check_port-some m n rest e = elim (Bool-cases (not (is_empty rest) || ltb m 1 || ltb 65535 m)) [
  | inl bad ↦ absurd (grind (arith, rw bad at e))
  | inr good ↦
      let same : some m ≡ some n = rw good at e in
      (is_empty-true rest (grind arith), grind arith, grind arith, grind arith)
]

abbrev accept : Option (ℤ × Name) → Option ℕ
accept none = none
accept (some parsed) = check_port parsed

parse_port-accept : (text : Name) → parse_port text ≡ accept (from_chars text)
unfolding parse_port
parse_port-accept text = go (from_chars text)
  where
    go :
        (r : Option (ℤ × Name))
        → elim r [ none ↦ none | some parsed ↦ check_port parsed ] ≡ accept r
    go none = refl
    go (some parsed) = refl

from_chars-minus :
    (c : ℕ) (cs : Name) → (c == 45) ≡ true → from_chars (c ∷ cs) ≡ from_digits true (span_digits cs)
unfolding from_chars
from_chars-minus c cs h = rw h refl

from_chars-plain :
    (c : ℕ) (cs : Name)
    → (c == 45) ≡ false
    → from_chars (c ∷ cs) ≡ from_digits false (span_digits (c ∷ cs))
unfolding from_chars
from_chars-plain c cs h = rw h refl

accept-signed : (d : Name × Name) (n : ℕ) → accept (from_digits true d) ≢ some n
accept-signed (digits, rest) n f = elim (from_digits-minus digits rest) [
  | inl unread ↦ absurd (grind (arith, rw unread at f))
  | inr read ↦ absurd (grind (arith, rw (read, check_port-negate (decimal 0 digits) rest) at f))
]

accept-unsigned :
    (d : Name × Name) (n : ℕ)
    → accept (from_digits false d) ≡ some n
    → (d.1 ≡ []) × (decimal 0 d.0 ≡ n) × (1 ≤ decimal 0 d.0) × (decimal 0 d.0 ≤ 65535)
accept-unsigned (digits, rest) n f = elim (from_digits-cases digits rest) [
  | inl unread ↦ absurd (grind (arith, rw unread at f))
  | inr read ↦ check_port-some (decimal 0 digits) n rest (rw read at f)
]

accept-IsPort : (text : Name) (n : ℕ) → accept (from_chars text) ≡ some n → IsPort text n
accept-IsPort [] n e = absurd (unfold from_chars in grind (arith, e))
accept-IsPort (c ∷ cs) n e = elim (Bool-cases (c == 45)) [
  | inl minus ↦ absurd (accept-signed (span_digits cs) n (rw (from_chars-minus c cs minus) at e))
  | inr other ↦
      let (ended, number, low, high) =
        accept-unsigned (span_digits (c ∷ cs)) n (rw (from_chars-plain c cs other) at e) in
      let (whole, all_digits) = span_digits-IsDigits (c ∷ cs) ended in
      let named : decimal 0 (c ∷ cs) ≡ n = ap (decimal 0) (sym whole) ∙ number in
      record {
        nonempty = grind arith;
        digits = all_digits;
        number = named;
        at_least = omega arith;
        at_most = omega arith;
      }
]

IsPort-accept : (text : Name) (n : ℕ) → IsPort text n → accept (from_chars text) ≡ some n
IsPort-accept [] n v = absurd (v.nonempty refl)
IsPort-accept (c ∷ cs) n v =
    rw (from_chars-plain c cs plain, span_digits-all (c ∷ cs) v.digits, in_range) accepted
  where
    plain : (c == 45) ≡ false
    plain = grind (arith, v.digits)

    in_range : from_digits false (c ∷ cs, []) ≡ some (pos n, [])
    in_range = unfold from_digits in rw v.number (ground (arith, v.at_most))

    accepted : check_port (pos n, []) ≡ some n
    accepted = unfold check_port in ground (arith, v.at_least, v.at_most)

-- `parse_port` accepts a text as the port `n` exactly if it is not empty and nothing but decimal
-- digits, and its number is `n`, from 1 to 65535; for every other text it throws.
pub parse_port_iff : (text : Name) (n : ℕ) → (parse_port text ≡ some n) ↔ IsPort text n
parse_port_iff text n = (
  λ e. accept-IsPort text n (sym (parse_port-accept text) ∙ e),
  λ v. parse_port-accept text ∙ IsPort-accept text n v,
)

-- ===== src/Base/Decimal.antt =====
-- The decimal form of a number is read back from the text that it begins.
use Prim.Native.Char.{Char, code}
use Prim.Native.Nat.{ℕ, zero, suc, ◌+◌, ◌*◌, ◌-◌, ◌/◌, ◌%◌, ◌<◌}
use Prim.Native.String.{String, ◌++◌}
use Prim.Native.String.append
use mathlib.Core.Path.{◌≡◌, refl, ap, ap₂, sym, subst, ◌∙◌}
use mathlib.Core.Bool.{true, false, ◌&&◌, false≢true}
use mathlib.Core.Logic.{◌≢◌, inl, inr}
use native.Mathlib.Omega.{arith}
use lcloud.Base.Tests.{◌==◌, ltb, leb, Bool-cases, if◌then◌else◌}
use text.Mathlib.Text.{◌==◌ as str_eq, starts_with}
use text.Mathlib.TextEquality.{eq_iff, starts_with_iff}
use text.Mathlib.TextPositions.{starts_with-append}
use lcloud.Base.Text.{prefix, len, show_digit, show_digits, show}

append_assoc : (a b c : String) → ((a ++ b) ++ c) ≡ (a ++ (b ++ c))
append_assoc String.[] b c = ap (λ s. s ++ c) (append.nil b) ∙ sym (append.nil (b ++ c))
append_assoc (String.◌∷◌ x a) b c =
    ap (λ s. s ++ c) (append.cons x a b)
    ∙ append.cons x (a ++ b) c
    ∙ ap (λ s. String.◌∷◌ x s) (append_assoc a b c)
    ∙ sym (append.cons x a (b ++ c))

-- The number that the digits at the start of a text continue.
abbrev read_char : ℕ → Char → (ℕ → ℕ) → ℕ
read_char n c rest = if leb 48 (code c) && ltb (code c) 58 then rest (n * 10 + (code c - 48)) else n

pub read_on : String → ℕ → ℕ
read_on String.[] n = n
read_on (String.◌∷◌ c s) n = read_char n c (read_on s)

read_on-one :
    (c : Char) (s : String) (n : ℕ) → read_on (String.◌∷◌ c "" ++ s) n ≡ read_char n c (read_on s)
unfolding read_on
read_on-one c s n =
    ap (λ t. read_on t n) (append.cons c "" s ∙ ap (λ t. String.◌∷◌ c t) (append.nil s))

colon_ends : (n : ℕ) (s : String) → read_on (":" ++ s) n ≡ n
unfolding read_on
colon_ends n s = read_on-one ":" s n

read_on-digit :
    (d n : ℕ) (s : String) → d < 10 → read_on (show_digit d ++ s) n ≡ read_on s (n * 10 + d)
unfolding read_on show_digit
read_on-digit zero n s h = read_on-one "0" s n
read_on-digit (suc zero) n s h = read_on-one "1" s n
read_on-digit (suc (suc zero)) n s h = read_on-one "2" s n
read_on-digit (suc (suc (suc zero))) n s h = read_on-one "3" s n
read_on-digit (suc (suc (suc (suc zero)))) n s h = read_on-one "4" s n
read_on-digit (suc (suc (suc (suc (suc zero))))) n s h = read_on-one "5" s n
read_on-digit (suc (suc (suc (suc (suc (suc zero)))))) n s h = read_on-one "6" s n
read_on-digit (suc (suc (suc (suc (suc (suc (suc zero))))))) n s h = read_on-one "7" s n
read_on-digit (suc (suc (suc (suc (suc (suc (suc (suc zero)))))))) n s h = read_on-one "8" s n
read_on-digit (suc (suc (suc (suc (suc (suc (suc (suc (suc zero))))))))) n s h = read_on-one "9" s n
read_on-digit (suc (suc (suc (suc (suc (suc (suc (suc (suc (suc d)))))))))) n s h =
    absurd (omega (arith, h))

plus_zero : (n : ℕ) → 0 * 10 + n ≡ n
plus_zero n = omega arith

read_on-show_digits :
    (fuel n : ℕ) (s : String) → n < fuel → read_on (show_digits fuel n ++ s) 0 ≡ read_on s n
unfolding show_digits
read_on-show_digits zero n s h = absurd (omega (arith, h))
read_on-show_digits (suc fuel) n s h = elim (Bool-cases (ltb n 10)) [
  | inl e ↦ simp e (read_on-digit n 0 s (ground arith) ∙ ap (read_on s) (plus_zero n))
  | inr e ↦ simp e (
      ap (λ t. read_on t 0) (append_assoc (show_digits fuel (n / 10)) (show_digit (n % 10)) s)
      ∙ read_on-show_digits fuel (n / 10) (show_digit (n % 10) ++ s) (ground arith)
      ∙ read_on-digit (n % 10) (n / 10) s (omega arith)
      ∙ ap (read_on s) (omega arith))
]

-- A number is read back up to the colon behind it.
pub read_on-show : (n : ℕ) (s : String) → read_on (show n ++ (":" ++ s)) 0 ≡ n
unfolding show
read_on-show n s = read_on-show_digits (suc n) n (":" ++ s) (omega arith) ∙ colon_ends n s

-- The text behind as many characters.
pub after : ℕ → String → String
after zero s = s
after (suc n) String.[] = String.[]
after (suc n) (String.◌∷◌ c s) = after n s

pub after-append : (p s : String) → after (len p) (p ++ s) ≡ s
unfolding after len
after-append String.[] s = append.nil s
after-append (String.◌∷◌ c p) s = ap (after (suc (len p))) (append.cons c p s) ∙ after-append p s

pub append_cancel : (p s t : String) → p ++ s ≡ p ++ t → s ≡ t
append_cancel p s t e = sym (after-append p s) ∙ ap (after (len p)) e ∙ after-append p t

-- The number behind a text of as many characters, and what is behind it up to a colon.
read_after :
    (p : String) (n : ℕ) (s : String) → read_on (after (len p) (p ++ (show n ++ (":" ++ s)))) 0 ≡ n
read_after p n s = ap (λ t. read_on t 0) (after-append p (show n ++ (":" ++ s))) ∙ read_on-show n s

numbers_equal :
    (p : String) (m n : ℕ) (s t : String)
    → p ++ (show m ++ (":" ++ s)) ≡ p ++ (show n ++ (":" ++ t))
    → m ≡ n
numbers_equal p m n s t e =
    sym (read_after p m s) ∙ ap (λ x. read_on (after (len p) x) 0) e ∙ read_after p n t

behind :
    (p : String) (n : ℕ) (t : String) → (p ++ (show n ++ ":")) ++ t ≡ p ++ (show n ++ (":" ++ t))
behind p n t = append_assoc p (show n ++ ":") t ∙ ap (λ s. p ++ s) (append_assoc (show n) ":" t)

-- A text with a number and a colon starts with such a text of the same number, and of no other.
pub starts_with-show :
    (p : String) (m n : ℕ) (s : String)
    → starts_with (p ++ (show m ++ (":" ++ s))) (p ++ (show n ++ ":")) ≡ (m == n)
starts_with-show p m n s = elim (Bool-cases (m == n)) [
  | inl e ↦
      let same : m ≡ n = ground arith in
      subst (λ k. starts_with (p ++ (show m ++ (":" ++ s))) (p ++ (show k ++ ":")) ≡ (m == k)) same
        (subst (λ t. starts_with t (p ++ (show m ++ ":")) ≡ (m == m)) (behind p m s)
          (starts_with-append (p ++ (show m ++ ":")) s ∙ sym (eq_self m)))
  | inr e ↦ elim (Bool-cases (starts_with (p ++ (show m ++ (":" ++ s))) (p ++ (show n ++ ":")))) [
    | inl f ↦
        let (t, g) = (starts_with_iff (p ++ (show m ++ (":" ++ s))) (p ++ (show n ++ ":"))).0 f in
        let same = numbers_equal p m n s t (sym g ∙ behind p n t) in
        absurd (ground (arith, same, e))
    | inr f ↦ f ∙ sym e
  ]
]
  where
    eq_self : (k : ℕ) → (k == k) ≡ true
    eq_self k = ground arith

-- Two such texts with rests are equal if their numbers and rests are.
pub eq-show :
    (p : String) (m n : ℕ) (s t : String)
    → str_eq (p ++ (show m ++ (":" ++ s))) (p ++ (show n ++ (":" ++ t))) ≡ (m == n && str_eq s t)
eq-show p m n s t =
    elim (Bool-cases (str_eq (p ++ (show m ++ (":" ++ s))) (p ++ (show n ++ (":" ++ t))))) [
      | inl f ↦
          let g = (eq_iff (p ++ (show m ++ (":" ++ s))) (p ++ (show n ++ (":" ++ t)))).0 f in
          let same = numbers_equal p m n s t g in
          let rests = append_cancel ":" s t (
            append_cancel (show n) _ _ (
              append_cancel p _ _
                (subst (λ k. p ++ (show k ++ (":" ++ s)) ≡ p ++ (show n ++ (":" ++ t))) same g))) in
          f ∙ ground (arith, same, (eq_iff s t).1 rests)
      | inr f ↦ elim (Bool-cases (m == n && str_eq s t)) [
        | inl e ↦
            let same : m ≡ n = ground arith in
            let rests = (eq_iff s t).0 (ground arith) in
            absurd (
              false≢true (
                sym f
                ∙ (eq_iff (p ++ (show m ++ (":" ++ s))) (p ++ (show n ++ (":" ++ t)))).1
                    (ap₂ (λ k r. p ++ (show k ++ (":" ++ r))) same rests)))
        | inr e ↦ f ∙ sym e
      ]
    ]

-- Texts that differ in their first characters.
prefix-append : (k : ℕ) (p s : String) → leb k (len p) ≡ true → prefix k (p ++ s) ≡ prefix k p
unfolding prefix len
prefix-append zero p s h = refl
prefix-append (suc k) String.[] s h = absurd (ground arith)
prefix-append (suc k) (String.◌∷◌ c p) s h =
    ap (prefix (suc k)) (append.cons c p s)
    ∙ ap (λ t. String.◌∷◌ c t) (prefix-append k p s (ground arith))

apart :
    (k : ℕ) (p q s t : String)
    → leb k (len p) ≡ true
    → leb k (len q) ≡ true
    → str_eq (prefix k p) (prefix k q) ≡ false
    → p ++ s ≢ q ++ t
apart k p q s t h j d e = false≢true (
    sym d
    ∙ (eq_iff (prefix k p) (prefix k q)).1
        (sym (prefix-append k p s h) ∙ ap (prefix k) e ∙ prefix-append k q t j))

pub eq-apart :
    (k : ℕ) (p q s t : String)
    → leb k (len p) ≡ true
    → leb k (len q) ≡ true
    → str_eq (prefix k p) (prefix k q) ≡ false
    → str_eq (p ++ s) (q ++ t) ≡ false
eq-apart k p q s t h j d = elim (Bool-cases (str_eq (p ++ s) (q ++ t))) [
  | inl f ↦ absurd (apart k p q s t h j d ((eq_iff (p ++ s) (q ++ t)).0 f))
  | inr f ↦ f
]

pub starts_with-apart :
    (k : ℕ) (p q s t : String)
    → leb k (len p) ≡ true
    → leb k (len q) ≡ true
    → str_eq (prefix k p) (prefix k q) ≡ false
    → starts_with (p ++ s) (q ++ t) ≡ false
starts_with-apart k p q s t h j d = elim (Bool-cases (starts_with (p ++ s) (q ++ t))) [
  | inl f ↦
      let (r, e) = (starts_with_iff (p ++ s) (q ++ t)).0 f in
      absurd (apart k p q s (t ++ r) h j d (sym e ∙ append_assoc q t r))
  | inr f ↦ f
]

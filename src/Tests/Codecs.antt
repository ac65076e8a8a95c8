-- ===== src/Tests/Codecs.antt =====
-- Three encodings that meet what the store relies on: of flags as short texts, of flags with a number
-- that is left out, and of one message as a line longer than the scanner's buffer.
use nook_claw.Prelude.{
  ℕ, zero, suc, ◌≤◌, ◌<◌, ◌≡◌, refl, subst, ap, Bool, true, false, Option, none, some, [], ◌∷◌,
  length, take, arith, ◌==◌, if◌then◌else◌,
}
use nook_claw.Prelude.Text.{codes, text_eq}
use nook_claw.Memory.Codec.{Bytes, IsLine, Codec}
use nook_claw.Memory.Disk.{contents}

abbrev pub write_flag : Bool → Bytes
write_flag true = codes "{1}"
write_flag false = codes "{0}"

abbrev pub read_flag : Bytes → Option Bool
unfolding text_eq
read_flag l =
    if text_eq l (codes "{1}")
    then some true
    else if text_eq l (codes "{0}")
    then some false
    else none

pub flag_read : (m : Bool) → read_flag (write_flag m) ≡ some m
unfolding text_eq
flag_read true = refl
flag_read false = refl

pub flag-IsLine : (m : Bool) → IsLine (write_flag m)
flag-IsLine true =
    ((omega arith, omega arith, (omega arith, omega arith, (omega arith, omega arith))))
flag-IsLine false =
    ((omega arith, omega arith, (omega arith, omega arith, (omega arith, omega arith))))

pub flag_part :
    (m : Bool) (n : ℕ) → n < length (write_flag m) → read_flag (take n (write_flag m)) ≡ none
unfolding text_eq
flag_part true zero h = refl
flag_part true (suc zero) h = refl
flag_part true (suc (suc zero)) h = refl
flag_part true (suc (suc (suc n))) h = absurd (omega arith)
flag_part false zero h = refl
flag_part false (suc zero) h = refl
flag_part false (suc (suc zero)) h = refl
flag_part false (suc (suc (suc n))) h = absurd (omega arith)

abbrev pub flag_codec : Codec Bool
flag_codec = record {
  marshal = λ m. some (write_flag m);
  unmarshal = read_flag;
  stored = λ m. m;
  again = λ m l e. (
    write_flag m,
    refl,
    subst (λ (l : Bytes). length (write_flag m) ≤ length l) (ap contents e) (omega arith),
  );
  stored_again = λ m. refl;
  round_trip = λ m l e. subst (λ (l : Bytes). read_flag l ≡ some m) (ap contents e) (flag_read m);
  is_line = λ m l e. subst IsLine (ap contents e) (flag-IsLine m);
  partial = λ m l n e.
      subst (λ (l : Bytes). n < length l → read_flag (take n l) ≡ none) (ap contents e)
        (flag_part m n);
}

-- A flag with a number that its JSON leaves out.
abbrev pub Tagged : Type 0
Tagged = Bool × ℕ

abbrev pub untagged : Tagged → Tagged
untagged m = (m.0, 0)

abbrev pub read_tagged : Option Bool → Option Tagged
read_tagged none = none
read_tagged (some b) = some (b, 0)

abbrev pub tagged_codec : Codec Tagged
tagged_codec = record {
  marshal = λ m. some (write_flag m.0);
  unmarshal = λ l. read_tagged (read_flag l);
  stored = untagged;
  round_trip = λ m l e. ap read_tagged (flag_codec.round_trip m.0 l e);
  again = λ m l e. flag_codec.again m.0 l e;
  stored_again = λ m. refl;
  is_line = λ m l e. flag_codec.is_line m.0 l e;
  partial = λ m l n e h. ap read_tagged (flag_codec.partial m.0 l n e h);
}

abbrev pub xs : ℕ → Bytes
xs zero = []
xs (suc n) = b'x' ∷ xs n

pub length-xs : (n : ℕ) → length (xs n) ≡ n
length-xs zero = refl
length-xs (suc n) = omega (arith, length-xs n)

pub xs-IsLine : (n : ℕ) → IsLine (xs (suc n))
xs-IsLine zero = omega arith
xs-IsLine (suc n) = (omega arith, omega arith, xs-IsLine n)

length-take-lt : (n : ℕ) (l : Bytes) → n < length l → length (take n l) < length l
length-take-lt zero l h = h
length-take-lt (suc n) [] h = absurd (omega arith)
length-take-lt (suc n) (c ∷ cs) h = omega (arith, length-take-lt n cs)

pub long_read : (n : ℕ) → (if length (xs (suc n)) == suc n then some (tt {0}) else none) ≡ some tt
long_read n = ground (arith, length-xs (suc n))

pub long_part :
    (n k : ℕ)
    → k < length (xs (suc n))
    → (if length (take k (xs (suc n))) == suc n then some (tt {0}) else none) ≡ none
long_part n k h = ground (arith, length-take-lt k (xs (suc n)), length-xs (suc n))

-- One message, as a line of `n + 1` letters.
abbrev pub long_codec : ℕ → Codec (Unit {0})
long_codec n = record {
  marshal = λ m. some (xs (suc n));
  unmarshal = λ l. if length l == suc n then some tt else none;
  stored = λ m. m;
  again = λ m l e. (
    xs (suc n),
    refl,
    subst (λ (l : Bytes). length (xs (suc n)) ≤ length l) (ap contents e) (omega arith),
  );
  stored_again = λ m. refl;
  round_trip = λ m l e.
      subst (λ (l : Bytes). (if length l == suc n then some tt else none) ≡ some m) (ap contents e)
        (long_read n);
  is_line = λ m l e. subst IsLine (ap contents e) (xs-IsLine n);
  partial = λ m l k e.
      subst
        (λ (l : Bytes).
          k < length l → (if length (take k l) == suc n then some tt else none) ≡ none)
        (ap contents e) (long_part n k);
}

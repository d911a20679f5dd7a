-- ===== src/Health/Stamp.antt =====
-- timestamp of queue.go: RFC 3339 with nanoseconds, whose text SQLite compares. Zeros at the end of
-- a fraction are left out, so within one second the order of the texts is not that of the instants.
pub mod Seconds
use index_01_hook.Base.{
  ℕ, ◌/◌, ◌%◌, Bool, true, false, ◌&&◌, ◌||◌, Option, none, some, List, [], ◌∷◌, ◌++◌, ltb, ◌==◌,
  if◌then◌else◌,
}
use index_01_hook.Queue.Types.{unix_seconds}

abbrev nanos : ℕ → ℕ
nanos instant = instant % 1_000_000_000

abbrev fraction_digits : ℕ → List ℕ
fraction_digits f =
    f / 100_000_000
    ∷ f / 10_000_000 % 10
    ∷ f / 1_000_000 % 10
    ∷ f / 100_000 % 10
    ∷ f / 10_000 % 10
    ∷ f / 1_000 % 10
    ∷ f / 100 % 10
    ∷ f / 10 % 10
    ∷ f % 10
    ∷ []

abbrev keep_digit : ℕ → List ℕ → List ℕ
keep_digit d [] = if d == 0 then [] else d ∷ []
keep_digit d (e ∷ ds) = d ∷ e ∷ ds

unfoldable trim_zeros : List ℕ → List ℕ
trim_zeros [] = []
trim_zeros (d ∷ ds) = keep_digit d (trim_zeros ds)

-- What follows the seconds: the digits, then the `Z`, which stands after every digit and after the
-- point that a fraction begins with.
unfoldable pub fraction_text : ℕ → List ℕ
unfolding trim_zeros
fraction_text f = trim_zeros (fraction_digits f) ++ (10 ∷ [])

unfoldable digits_before : List ℕ → List ℕ → Bool
digits_before s [] = false
digits_before [] (b ∷ t) = true
digits_before (a ∷ s) (b ∷ t) = ltb a b || (a == b && digits_before s t)

-- The order of the texts of two instants. The date and the seconds have a fixed width.
unfoldable pub stamp_before : ℕ → ℕ → Bool
unfolding digits_before fraction_text
stamp_before a b =
    ltb (unix_seconds a) (unix_seconds b)
    || (unix_seconds a == unix_seconds b
        && digits_before (fraction_text (nanos a)) (fraction_text (nanos b)))

-- `min` of a column of timestamps.
abbrev pub earlier_stamp : ℕ → Option ℕ → ℕ
earlier_stamp a none = a
earlier_stamp a (some b) = if stamp_before b a then b else a

unfoldable pub first_stamp : List ℕ → Option ℕ
unfolding stamp_before
first_stamp [] = none
first_stamp (a ∷ later) = some (earlier_stamp a (first_stamp later))

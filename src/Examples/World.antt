-- ===== src/Examples/World.antt =====
-- A host: texts that the program only passes on are encoded by single large code points.
use gpu_control.Base.{
  ℕ, zero, suc, ◌+◌, ◌-◌, ◌≡◌, refl, true, false, ◌&&◌, Option, none, some, [], ◌∷◌, Text, codes,
  text_eq, ℤ, pos, negsuc, pos_part, neg_part, sub_ℕ, leb, ◌==◌, split, strip, is_empty, has_char,
  before_suffix, arith, if◌then◌else◌,
}
use gpu_control.Decimal.{Decimal, finite, special, is_positive}
use gpu_control.Value.{text, is_nonblank}
use gpu_control.Host.{Host, DateTime, PosixPath, is_utc}
use gpu_control.Clock.{ClockLaws, restore_zone}
use gpu_control.Receipt.Restored.{DecimalLaws, is_plain}
use gpu_control.Policy.Effective.{StrLaws}
use gpu_control.Validation.Canonical.{PathLaws}

abbrev pub base : ℕ
base = 100000

-- An instant as one character, and the zone.
abbrev pub stamp : ℕ → Text
stamp n = (base + n) ∷ codes "Z"

read_stamp : Text → Option DateTime
read_stamp [] = none
read_stamp (c ∷ zone) =
    if leb base c && text_eq zone (codes "+00:00")
    then some (record { instant = c - base; offset = some (pos 0) })
    else none

-- A decimal as three characters.
abbrev pub shown : Decimal → Text
shown (finite c e) = (base + pos_part c) ∷ (base + neg_part c) ∷ (base + neg_part e) ∷ []
shown special = []

read_decimal : Text → Option Decimal
read_decimal (a ∷ b ∷ c ∷ []) = some (finite (sub_ℕ (a - base) (b - base)) (sub_ℕ 0 (c - base)))
read_decimal (a ∷ b ∷ c ∷ d ∷ []) =
    some (finite (sub_ℕ (a - base) (b - base)) (sub_ℕ (d - base) (c - base)))
read_decimal _ = none

-- A decimal as four characters, with both signs of the exponent.
abbrev pub shown_exactly : Decimal → Text
shown_exactly (finite c e) =
    (base + pos_part c) ∷ (base + neg_part c) ∷ (base + neg_part e) ∷ (base + pos_part e) ∷ []
shown_exactly special = []

-- A number of one digit.
read_int : Text → Option ℤ
read_int (c ∷ []) = if leb b'0' c && leb c b'9' then some (pos (c - b'0')) else none
read_int _ = none

plain_path : Text → PosixPath
plain_path s = record { is_absolute = false; parts = split b'/' s; shown = s }

path_of_text : Text → PosixPath
path_of_text [] = plain_path (codes ".")
path_of_text (c ∷ s) =
    if c == b'/' then record (plain_path (c ∷ s)) { is_absolute = true } else plain_path (c ∷ s)

abbrev pub sixty_four : ℕ → Text
sixty_four c = times 64
  where
    times : ℕ → Text
    times zero = []
    times (suc n) = c ∷ times n

instance unfoldable pub world : Host
unfolding read_stamp read_decimal read_int plain_path path_of_text
world = record {
  fromisoformat = read_stamp;
  utc_isoformat = λ d. stamp d.instant;
  decimal_of_text = read_decimal;
  format_f = shown;
  decimal_str = shown_exactly;
  int_of_text = read_int;
  int_str = λ n. "n";
  posix_path = path_of_text;
  json_dumps = λ v. [];
  sha256_hex = λ s. sixty_four b'a';
}

pub world-ClockLaws : ClockLaws world
unfolding world is_nonblank strip is_utc restore_zone before_suffix text_eq
world-ClockLaws = record {
  nonblank = λ d u. ground arith;
  trim = λ d u. ground arith;
  read_back = λ d u. ground arith;
}

pub world-DecimalLaws : DecimalLaws world
unfolding world is_nonblank strip
world-DecimalLaws = record {
  read_back = λ d p. plain_back d p;
  nonblank = λ d p. plain_nonblank d p;
}
  where
    plain_back : (d : Decimal) → is_plain d ≡ true → read_decimal (shown d) ≡ some d
    plain_back (finite (pos c) (pos e)) p = ground arith
    plain_back (finite (pos c) (negsuc e)) p = ground arith
    plain_back (finite (negsuc c) (pos e)) p = ground arith
    plain_back (finite (negsuc c) (negsuc e)) p = ground arith
    plain_back special p = cc

    plain_nonblank : (d : Decimal) → is_plain d ≡ true → is_nonblank (text (shown d)) ≡ true
    plain_nonblank (finite c e) p = ground arith
    plain_nonblank special p = cc

pub world-PathLaws : PathLaws world
unfolding world has_char
world-PathLaws = record { reparse = reparse; shown_nonempty = nonempty; shown_backslash = plain }
  where
    reparse : (s : Text) → path_of_text (path_of_text s).shown ≡ path_of_text s
    reparse [] = refl
    reparse (c ∷ s) = ground arith

    nonempty : (s : Text) → is_empty (path_of_text s).shown ≡ false
    nonempty [] = refl
    nonempty (c ∷ s) = ground arith

    plain : (s : Text) → has_char 92 s ≡ false → has_char 92 (path_of_text s).shown ≡ false
    plain [] h = refl
    plain (c ∷ s) h = ground arith

pub world-StrLaws : StrLaws world
unfolding world
world-StrLaws = record { read_back = λ d p. exact_back d p }
  where
    exact_back : (d : Decimal) → is_positive d ≡ true → read_decimal (shown_exactly d) ≡ some d
    exact_back (finite (pos c) (pos e)) p = ground arith
    exact_back (finite (pos c) (negsuc e)) p = ground arith
    exact_back (finite (negsuc c) e) p = cc
    exact_back special p = cc

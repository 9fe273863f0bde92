-- ===== src/Float.antt =====
-- Python's `float`: binary64. A finite value is a whole multiple of 2 ^ -1074, and is stored as
-- that multiple, so comparisons are exact; the two zeros are one value, since the program
-- never tells them apart. A sum is exact and then rounded to 53 significant bits, ties to even.
use hass_geofence_journal.Prelude.{
  ℕ, zero, suc, ◌+◌, ◌-◌, ◌*◌, ◌/◌, ◌%◌, ◌^◌, Bool, true, false, not, ◌&&◌, ◌||◌, ltb, ◌==◌,
  if◌then◌else◌,
}
use hass_geofence_journal.Prelude.Int.{ℤ, pos, negsuc, ◌+ℤ◌, leb_ℤ}

pub data Float : Type 0 where
  finite : ℤ → Float
  inf : Float
  neg_inf : Float
  nan : Float

-- The unit: 1.0 is 2 ^ 1074 steps.
one_steps : ℕ
one_steps = 2 ^ 1074

-- The literal n.0, for a small n.
unfoldable pub of_ℕ : ℕ → Float
unfolding one_steps
of_ℕ n = finite (pos (n * one_steps))

-- The literal -n.0, for a small positive n.
unfoldable pub neg_of_ℕ : ℕ → Float
unfolding one_steps
neg_of_ℕ zero = finite (pos 0)
neg_of_ℕ (suc n) = finite (negsuc (suc n * one_steps - 1))

-- `math.isfinite`
abbrev pub isfinite : Float → Bool
isfinite (finite _) = true
isfinite _ = false

-- `<=`; a comparison with NaN is false.
abbrev pub le_float : Float → Float → Bool
le_float nan _ = false
le_float (finite _) nan = false
le_float inf nan = false
le_float neg_inf nan = false
le_float neg_inf _ = true
le_float _ inf = true
le_float inf _ = false
le_float (finite _) neg_inf = false
le_float (finite a) (finite b) = leb_ℤ a b

-- `<`
abbrev pub lt_float : Float → Float → Bool
lt_float nan _ = false
lt_float _ nan = false
lt_float a b = not (le_float b a)

-- The number of binary digits, on fuel.
bit_length : ℕ → ℕ → ℕ
bit_length zero n = 0
bit_length (suc f) n = let rest = bit_length f (n / 2) in if n == 0 then 0 else suc rest

-- Round a count of steps to 53 significant bits, ties to even.
round_shift : ℕ → ℕ → ℕ
round_shift n e =
    let unit = 2 ^ e in
    let q = n / unit in
    let r = 2 * (n % unit) in
    if ltb unit r || ((r == unit) && (q % 2 == 1)) then (q + 1) * unit else q * unit

round_steps : ℕ → ℕ
unfolding bit_length round_shift
round_steps n = let e = bit_length 2100 n - 53 in if e == 0 then n else round_shift n e

-- Above the largest finite value a rounded sum is infinite.
round_float : ℤ → Float
unfolding round_steps
round_float (pos n) = let m = round_steps n in if ltb m (2 ^ 2098) then finite (pos m) else inf
round_float (negsuc n) =
    let m = round_steps (suc n) in if ltb m (2 ^ 2098) then finite (negsuc (m - 1)) else neg_inf

-- `+`
unfoldable pub add_float : Float → Float → Float
unfolding round_float ◌+ℤ◌
add_float nan _ = nan
add_float _ nan = nan
add_float inf neg_inf = nan
add_float neg_inf inf = nan
add_float inf _ = inf
add_float _ inf = inf
add_float neg_inf _ = neg_inf
add_float _ neg_inf = neg_inf
add_float (finite a) (finite b) = round_float (a +ℤ b)

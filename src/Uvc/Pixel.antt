-- ===== src/Uvc/Pixel.antt =====
-- The colour arithmetic of `yuyv2rgb`. The values are ints; none of them overflows.
use linux_tutorial.Prelude.{ℕ, ◌-◌, ◌*◌, ◌/◌, ◌%◌, ◌^◌, ◌≤◌, ◌<◌, ◌≡◌, arith, if◌then◌else◌}
use linux_tutorial.Prelude.Int.{ℤ, pos, negsuc, sub_ℕ, ◌+ℤ◌, ◌-ℤ◌, ◌*ℤ◌, ◌≤ℤ◌, ltb_ℤ}

unfoldable pub minmax : ℤ → ℤ → ℤ → ℤ
minmax min v max = if ltb_ℤ v min then min else if ltb_ℤ max v then max else v

-- `x >> 8` of an int, which rounds down.
unfoldable pub shr8 : ℤ → ℤ
shr8 (pos n) = pos (n / 256)
shr8 (negsuc n) = negsuc (n / 256)

-- The value that an int leaves in a uint8_t.
unfoldable pub to_u8 : ℤ → ℕ
to_u8 (pos n) = n % 256
to_u8 (negsuc n) = 255 - n % 256

-- `c - 128`
abbrev pub centred : ℕ → ℤ
centred c = sub_ℕ c 128

-- `c << 8`
abbrev pub scaled : ℕ → ℤ
scaled c = pos (c * 256)

abbrev pub red_sum : ℕ → ℕ → ℕ → ℤ
red_sum y u v = scaled y +ℤ pos 359 *ℤ centred v

abbrev pub green_sum : ℕ → ℕ → ℕ → ℤ
green_sum y u v = scaled y +ℤ pos 88 *ℤ centred v -ℤ pos 183 *ℤ centred u

abbrev pub blue_sum : ℕ → ℕ → ℕ → ℤ
blue_sum y u v = scaled y +ℤ pos 454 *ℤ centred u

unfoldable pub channel : ℤ → ℕ
unfolding minmax shr8 to_u8
channel sum = to_u8 (minmax (pos 0) (shr8 sum) (pos 255))

-- minmax returns a value of the range, and leaves one of the range alone.
pub minmax_bounds :
    (lo v hi : ℤ)
    → lo ≤ℤ hi
    → (lo ≤ℤ minmax lo v hi) × (minmax lo v hi ≤ℤ hi) × (lo ≤ℤ v → v ≤ℤ hi → minmax lo v hi ≡ v)
unfolding minmax
minmax_bounds lo v hi h = (ground arith, ground arith, λ a b. ground arith)

abbrev pub IsByte : ℕ → Type 0
IsByte c = c < 256

abbrev pub FitsInt : ℤ → Type 0
FitsInt x = (negsuc (2 ^ 31 - 1) ≤ℤ x) × (x ≤ℤ pos (2 ^ 31 - 1))

-- The sums of three bytes are far from the ends of an int.
sums_fit :
    (y u v : ℕ)
    → IsByte y
    → IsByte u
    → IsByte v
    → FitsInt (red_sum y u v) × FitsInt (green_sum y u v) × FitsInt (blue_sum y u v)
unfolding ◌+ℤ◌ ◌-ℤ◌ ◌*ℤ◌
sums_fit y u v hy hu hv =
    ((ground arith, ground arith), (ground arith, ground arith), (ground arith, ground arith))

-- A channel is the sum over 256, rounded down and cut to 0 .. 255; the store to a byte loses nothing.
channel_lem : (s : ℤ) → (channel s ≤ 255) × (pos (channel s) ≡ minmax (pos 0) (shr8 s) (pos 255))
unfolding channel
channel_lem s = (ground arith, ground arith)

-- A larger sum never gives a smaller channel.
pub channel_mono : (s t : ℤ) → s ≤ℤ t → channel s ≤ channel t
unfolding channel
channel_mono s t h = ground arith

-- A pixel without colour keeps its luma in all three channels.
pub channel_grey :
    (y : ℕ)
    → IsByte y
    → (channel (red_sum y 128 128) ≡ y)
      × (channel (green_sum y 128 128) ≡ y)
      × (channel (blue_sum y 128 128) ≡ y)
unfolding channel ◌+ℤ◌ ◌-ℤ◌ ◌*ℤ◌
channel_grey y h = (ground arith, ground arith, ground arith)

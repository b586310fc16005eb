-- ===== src/Lights/Brightness.antt =====
-- lights/lights.c: what the brightness of a color is.
use android_device_generic_m.Base.{ℕ, ◌+◌, ◌*◌, ◌/◌, ◌≤◌, ◌<◌, ◌≡◌, arith}
use android_device_generic_m.Lights.{rgb_to_brightness}

-- A color of these parts, with anything in the byte for transparency.
abbrev pub argb : (alpha red green blue : ℕ) → ℕ
argb alpha red green blue = ((alpha * 256 + red) * 256 + green) * 256 + blue

weighted :
    (alpha red green blue : ℕ)
    → red < 256
    → green < 256
    → blue < 256
    → rgb_to_brightness (argb alpha red green blue) ≡ (77 * red + 150 * green + 29 * blue) / 256
unfolding rgb_to_brightness
weighted alpha red green blue hr hg hb = omega (arith, hr, hg, hb)

-- The brightness of a color depends on red, green and blue alone and never leaves the byte that the
-- driver takes: it is their sum weighted by 77, 150 and 29 over 256. It is 0 for black and 255 for
-- white, and brighter parts never give a darker light.
pub brightness_lem :
    (alpha red green blue r g b : ℕ)
    → red < 256
    → green < 256
    → blue < 256
    → r ≤ red
    → g ≤ green
    → b ≤ blue
    → (rgb_to_brightness (argb alpha red green blue) ≡ (77 * red + 150 * green + 29 * blue) / 256)
      × (rgb_to_brightness (argb alpha red green blue) < 256)
      × (rgb_to_brightness (argb alpha r g b) ≤ rgb_to_brightness (argb alpha red green blue))
      × (rgb_to_brightness (argb alpha 0 0 0) ≡ 0)
      × (rgb_to_brightness (argb alpha 255 255 255) ≡ 255)
brightness_lem alpha red green blue r g b hr hg hb lr lg lb =
    let e = weighted alpha red green blue hr hg hb in
    let f =
      weighted alpha r g b (omega (arith, lr, hr)) (omega (arith, lg, hg))
        (omega (arith, lb, hb)) in
    (
      e,
      omega (arith, e, hr, hg, hb),
      omega (arith, e, f, lr, lg, lb),
      weighted alpha 0 0 0 (omega arith) (omega arith) (omega arith),
      weighted alpha 255 255 255 (omega arith) (omega arith) (omega arith),
    )

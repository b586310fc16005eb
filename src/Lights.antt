-- ===== src/Lights.antt =====
-- lights/lights.c: the brightness of the backlight and the buttons. A color is a 32-bit pattern; what
-- write_int answers is an argument, and what it is asked to write is part of the result. malloc answers
-- with an address or NULL.
pub mod Brightness
use Prim.Native.Nat.{bit_and}
use android_device_generic_m.Base.{
  ℕ, ◌+◌, ◌-◌, ◌*◌, ◌/◌, ◌%◌, ◌^◌, Bool, true, false, Option, none, some, ◌==◌, if◌then◌else◌,
}
use android_device_generic_m.Xdr.{int_lt, minus_one}

pub data LightFile : Type 0 where
  lcd_file button_file : LightFile

-- `errno` after a call that failed, and the answers of open and write.
pub record FileAnswers : Type 0 where
  pub fd : ℕ
  pub amount : ℕ
  pub errno : ℕ

-- What is written, and the answer.
pub record Written : Type 0 where
  pub file : LightFile
  pub value : Option ℕ
  pub answer : ℕ

abbrev pub negated : ℕ → ℕ
negated v = (2 ^ 32 - v) % 2 ^ 32

unfoldable pub write_int : FileAnswers → LightFile → (value : ℕ) → Written
write_int a file value =
    if int_lt a.fd 0
    then record { file = file; value = none; answer = negated a.errno }
    else record {
      file = file;
      value = some value;
      answer = if a.amount == minus_one then negated a.errno else 0;
    }

-- `color & 0x00ffffff`
unfoldable pub is_lit : (color : ℕ) → ℕ
is_lit color = color % 2 ^ 24

unfoldable pub rgb_to_brightness : (color : ℕ) → ℕ
rgb_to_brightness color =
    let c = color % 2 ^ 24 in
    (77 * (c / 2 ^ 16 % 256) + 150 * (c / 2 ^ 8 % 256) + 29 * (c % 256)) / 2 ^ 8

-- `dev` is false for a NULL device: then -1 and nothing is written.
unfoldable pub set_light_backlight : FileAnswers → (dev : Bool) (color : ℕ) → ℕ × Option Written
set_light_backlight a dev color =
    let w = write_int a lcd_file (rgb_to_brightness color) in
    if dev then (w.answer, some w) else (minus_one, none)

-- The answer of write_int is not looked at.
unfoldable pub set_light_buttons : FileAnswers → (color : ℕ) → ℕ × Option Written
set_light_buttons a color = (0, some (write_int a button_file (if is_lit color == 0 then 0 else 1)))

-- The names that are known, and any other.
pub data LightName : Type 0 where
  backlight buttons other_light : LightName

-- The function of the device that was opened.
pub data SetLight : Type 0 where
  backlight_setter buttons_setter : SetLight

abbrev pub enomem : ℕ
enomem = 12

abbrev pub einval : ℕ
einval = 22

abbrev pub open_as : (malloc_ok : Bool) → SetLight → ℕ × Option SetLight
open_as malloc_ok set_light = if malloc_ok then (0, some set_light) else (negated enomem, none)

unfoldable pub open_lights : (malloc_ok : Bool) → LightName → ℕ × Option SetLight
open_lights malloc_ok backlight = open_as malloc_ok backlight_setter
open_lights malloc_ok buttons = open_as malloc_ok buttons_setter
open_lights malloc_ok other_light = (negated einval, none)

-- ===== src/Keyboard.antt =====
-- The keyboard driver: kernel/drivers/keyboard.c with the key codes of kernel/include/kernel/keyboard.h.
-- The static variables are the record `Keyboard`. The commands that `keyboard_init` sends to the
-- controller are left out.
pub mod Queue
pub mod Scancode
mod Tests
use jimir_os.Common.{
  ℕ, zero, suc, ◌+◌, ◌%◌, ◌≡◌, Bool, true, false, ◌||◌, not, List, [], ◌∷◌, ltb, leb, ◌==◌,
  if◌then◌else◌, get_or, set,
}
use jimir_os.Common.Int.{ℤ, pos, minus_one}

abbrev pub kbd_buf_size : ℕ
kbd_buf_size = 128

abbrev pub key_left : ℕ
key_left = 0x100

abbrev pub key_right : ℕ
key_right = 0x101

abbrev pub key_up : ℕ
key_up = 0x102

abbrev pub key_down : ℕ
key_down = 0x103

abbrev pub key_home : ℕ
key_home = 0x104

abbrev pub key_end : ℕ
key_end = 0x105

abbrev pub key_delete : ℕ
key_delete = 0x106

abbrev pub key_page_up : ℕ
key_page_up = 0x107

abbrev pub key_page_down : ℕ
key_page_down = 0x108

abbrev pub key_scroll_up : ℕ
key_scroll_up = 0x109

abbrev pub key_scroll_down : ℕ
key_scroll_down = 0x10a

-- `buf` is the 256 cells that a `uint8_t` reaches: the array has `kbd_buf_size` of them, and the
-- others are the memory behind it, taken to be nobody else's. The flags only ever hold 0 and 1.
pub record Keyboard : Type 0 where
  pub buf : List ℕ
  pub head : ℕ
  pub tail : ℕ
  pub shift : Bool
  pub ctrl : Bool
  pub alt : Bool
  pub e0 : Bool
  pub scroll_override_up : Bool
  pub scroll_override_down : Bool

-- The entries past the last one given are 0.
abbrev pub keymap : List ℕ
keymap =
    0 ∷ 27 ∷ b'1' ∷ b'2' ∷ b'3' ∷ b'4' ∷ b'5' ∷ b'6' ∷ b'7' ∷ b'8' ∷ b'9' ∷ b'0' ∷ b'-' ∷ b'=' ∷ 8
    ∷ 9 ∷ b'q' ∷ b'w' ∷ b'e' ∷ b'r' ∷ b't' ∷ b'y' ∷ b'u' ∷ b'i' ∷ b'o' ∷ b'p' ∷ b'[' ∷ b']' ∷ 10 ∷ 0
    ∷ b'a' ∷ b's' ∷ b'd' ∷ b'f' ∷ b'g' ∷ b'h' ∷ b'j' ∷ b'k' ∷ b'l' ∷ b';' ∷ 39 ∷ b'`' ∷ 0 ∷ 92
    ∷ b'z' ∷ b'x' ∷ b'c' ∷ b'v' ∷ b'b' ∷ b'n' ∷ b'm' ∷ b',' ∷ b'.' ∷ b'/' ∷ 0 ∷ b'*' ∷ 0 ∷ b' ' ∷ []

abbrev pub keymap_shift : List ℕ
keymap_shift =
    0 ∷ 27 ∷ b'!' ∷ b'@' ∷ b'#' ∷ b'$' ∷ b'%' ∷ b'^' ∷ b'&' ∷ b'*' ∷ b'(' ∷ b')' ∷ b'_' ∷ b'+' ∷ 8
    ∷ 9 ∷ b'Q' ∷ b'W' ∷ b'E' ∷ b'R' ∷ b'T' ∷ b'Y' ∷ b'U' ∷ b'I' ∷ b'O' ∷ b'P' ∷ b'{' ∷ b'}' ∷ 10 ∷ 0
    ∷ b'A' ∷ b'S' ∷ b'D' ∷ b'F' ∷ b'G' ∷ b'H' ∷ b'J' ∷ b'K' ∷ b'L' ∷ b':' ∷ 34 ∷ b'~' ∷ 0 ∷ b'|'
    ∷ b'Z' ∷ b'X' ∷ b'C' ∷ b'V' ∷ b'B' ∷ b'N' ∷ b'M' ∷ b'<' ∷ b'>' ∷ b'?' ∷ 0 ∷ b'*' ∷ 0 ∷ b' ' ∷ []

abbrev pub buf_empty : Keyboard → Bool
buf_empty k = k.head == k.tail

abbrev pub buf_full : Keyboard → Bool
buf_full k = (k.head + 1) % 256 == k.tail

unfoldable pub keyboard_init : Keyboard → Keyboard
keyboard_init k = record k {
  head = 0;
  tail = 0;
  shift = false;
  ctrl = false;
  alt = false;
  e0 = false;
}

-- `if (!buf_full()) { buf[head] = …; head = (uint8_t)(head+1); }`
unfoldable pub enqueue : ℕ → Keyboard → Keyboard
enqueue code k =
    if buf_full k then k else record k { buf = set k.buf k.head code; head = (k.head + 1) % 256 }

-- The second `switch` behind an 0xE0, with `code` 0 where there is none.
unfoldable pub extended_code : ℕ → Keyboard → ℕ × Keyboard
extended_code sc k =
    let held = k.ctrl || k.alt in
    if sc == 0x48
    then (
      if k.scroll_override_up || held then key_scroll_up else key_up,
      if held then record k { scroll_override_up = true } else k,
    )
    else if sc == 0x50
    then (
      if k.scroll_override_down || held then key_scroll_down else key_down,
      if held then record k { scroll_override_down = true } else k,
    )
    else if sc == 0x4b
    then (key_left, k)
    else if sc == 0x4d
    then (key_right, k)
    else if sc == 0x47
    then (key_home, k)
    else if sc == 0x4f
    then (key_end, k)
    else if sc == 0x53
    then (key_delete, k)
    else if sc == 0x49
    then (key_page_up, k)
    else if sc == 0x51
    then (key_page_down, k)
    else (0, k)

unfoldable pub extended_release : ℕ → Keyboard → Keyboard
extended_release sc k =
    let k1 = if sc == 0x48 then record k { scroll_override_up = false } else k in
    if sc == 0x50 then record k1 { scroll_override_down = false } else k1

-- The branch of a key behind an 0xE0.
unfoldable pub on_extended : Bool → ℕ → Keyboard → Keyboard
on_extended release sc k =
    let (code, k1) = extended_code sc k in
    if sc == 0x1d
    then record k { ctrl = not release }
    else if sc == 0x38
    then record k { alt = not release }
    else if release
    then extended_release sc k
    else if code == 0
    then k1
    else enqueue code k1

unfoldable pub on_plain : Bool → ℕ → Keyboard → Keyboard
on_plain release sc k =
    let ch = get_or (if k.shift then keymap_shift else keymap) sc 0 in
    if sc == 42 || sc == 54
    then record k { shift = not release }
    else if sc == 29
    then record k { ctrl = not release }
    else if sc == 56
    then record k { alt = not release }
    else if release
    then k
    else if ch == 0
    then k
    else enqueue ch k

unfoldable pub keyboard_on_scancode : ℕ → Keyboard → Keyboard
unfolding on_extended on_plain
keyboard_on_scancode sc k =
    let release = leb 0x80 sc in
    if sc == 0xe0
    then record k { e0 = true }
    else if k.e0
    then on_extended release (sc % 128) (record k { e0 = false })
    else on_plain release (sc % 128) k

unfoldable pub kbd_getch : Keyboard → ℤ × Keyboard
kbd_getch k =
    if buf_empty k
    then (minus_one, k)
    else (pos (get_or k.buf k.tail 0), record k { tail = (k.tail + 1) % 256 })

-- ===== src/Keyboard/Tests.antt =====
-- Runs of kernel/drivers/keyboard.c.
use jimir_os.Common.{◌≡◌, refl, false, get_or, replicate, arith}
use jimir_os.Common.Int.{pos}
use jimir_os.Keyboard.{
  Keyboard, keyboard_init, enqueue, keyboard_on_scancode, kbd_getch, kbd_buf_size, on_plain,
  on_extended, extended_code,
}
use jimir_os.Keyboard.Queue.{IsValid}
use jimir_os.Keyboard.Scancode.{enqueue_all, enqueue-past_end}

abbrev quiet : Keyboard
quiet = record {
  buf = replicate 256 0;
  head = 0;
  tail = 0;
  shift = false;
  ctrl = false;
  alt = false;
  e0 = false;
  scroll_override_up = false;
  scroll_override_down = false;
}

quiet-IsValid : IsValid quiet
quiet-IsValid = record { size = refl; head_in = omega arith; tail_in = omega arith }

-- One key waits, behind the wrap of the indices.
abbrev wrapped : Keyboard
wrapped = record quiet { head = 0; tail = 255 }

wrapped-IsValid : IsValid wrapped
wrapped-IsValid = record { size = refl; head_in = omega arith; tail_in = omega arith }

-- Left shift, then the key of the letter a.
types_a : (kbd_getch (keyboard_on_scancode 30 (keyboard_on_scancode 42 quiet))).0 ≡ pos 65
unfolding keyboard_on_scancode on_plain on_extended extended_code enqueue kbd_getch
types_a = refl

enqueue-past_end_example :
    get_or (enqueue 65 (enqueue_all (replicate 128 66) (keyboard_init quiet))).buf kbd_buf_size 0
    ≡ 65
enqueue-past_end_example = enqueue-past_end (replicate 128 66) 65 quiet refl refl

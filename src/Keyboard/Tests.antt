-- ===== src/Keyboard/Tests.antt =====
-- Runs of the keyboard driver on concrete input, and the theorems at concrete states.
use zrhos.Base.{◌≡◌, refl, ◌==◌, if◌then◌else◌, false, some, arith, replicate, length-replicate}
use zrhos.Keyboard.{KeyEvent, InputEvent, Keyboard, narrow, keyboard_intr, keyboard_read_event}
use zrhos.Keyboard.Queue.{IsValid, blank, pending, push, keyboard_intr-push}

abbrev idle : Keyboard
idle = record { locked = false; buffer = replicate 128 blank; head = 0; tail = 0 }

abbrev press : InputEvent
press = record { type = 1; code = 103; value = 1 }

-- the state after 130 events, all but one read: the index has passed the end of the buffer
abbrev late : Keyboard
late = record { locked = false; buffer = replicate 128 blank; head = 130; tail = 129 }

idle-IsValid : IsValid idle
idle-IsValid = record {
  full_size = length-replicate {A = KeyEvent} 128 blank;
  ordered = omega arith;
  room = omega arith;
}

late-IsValid : IsValid late
late-IsValid = record {
  full_size = length-replicate {A = KeyEvent} 128 blank;
  ordered = omega arith;
  room = omega arith;
}

keyboard_intr-push_example :
    (t : Keyboard) × (keyboard_intr press idle ≡ some t)
    × IsValid t
    × (t.locked ≡ false)
    × (pending t ≡ (if press.type == 1 then push (narrow press) (pending idle) else pending idle))
keyboard_intr-push_example = keyboard_intr-push press idle idle-IsValid refl (omega arith)

read_late :
    keyboard_read_event (λ c. false) 512 late
    ≡ some (4, some (record { from = 516; size = 4 }), record late { tail = 130 })
unfolding keyboard_read_event
read_late = refl

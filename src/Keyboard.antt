-- ===== src/Keyboard.antt =====
-- kernel/keyboard.c, with the types of kernel/keyboard.h: key events between the virtio input
-- interrupt and `read` on the keyboard device.
-- `none` stands for a call that does not return: it waits for a lock that nobody gives back, or it
-- counts an `int` past its last value.
pub mod Queue
pub mod Read
mod Tests
use zrhos.Base.{
  ℕ, ◌+◌, ◌-◌, ◌*◌, ◌%◌, ◌^◌, Bool, true, false, Option, none, some, List, ◌==◌, ltb, if◌then◌else◌,
  set, u8, u64,
}

-- `keyboard_event_t`: 4 bytes
pub record KeyEvent : Type 0 where
  pub type : ℕ
  pub code : ℕ
  pub value : ℕ

-- `struct virtio_input_event`, of wider fields
pub record InputEvent : Type 0 where
  pub type : ℕ
  pub code : ℕ
  pub value : ℕ

-- `keyboard_t`; `locked` says whether the lock is held.
pub record Keyboard : Type 0 where
  pub locked : Bool
  pub buffer : List KeyEvent
  pub head : ℕ
  pub tail : ℕ

abbrev pub buf_size : ℕ
buf_size = 128

abbrev pub event_size : ℕ
event_size = 4

abbrev pub narrow : InputEvent → KeyEvent
narrow e = record { type = u8 e.type; code = u8 e.code; value = e.value % 2 ^ 16 }

-- The body of `keyboard_intr` for a key event, under the lock.
abbrev pub store : KeyEvent → Keyboard → Keyboard
store x s =
    let head = s.head + 1 in
    record s {
      buffer = set s.buffer (s.head % buf_size) x;
      head = head;
      tail = if ltb buf_size (head - s.tail) then head - buf_size else s.tail;
    }

unfoldable pub keyboard_intr : InputEvent → Keyboard → Option Keyboard
keyboard_intr e s =
    if s.locked
    then none
    else if e.type == 1
    then (if ltb (s.head + 1) (2 ^ 31) then some (store (narrow e) s) else none)
    else some s

-- What `either_copyout` is asked to copy, in bytes from the start of `buffer`.
pub record Copy : Type 0 where
  pub from : ℕ
  pub size : ℕ

-- `fails` is the result of `either_copyout`; the value returned is a `uint64_t`.
unfoldable pub keyboard_read_event :
    (Copy → Bool) → ℕ → Keyboard → Option (ℕ × Option Copy × Keyboard)
keyboard_read_event fails n s =
    let held = event_size * (s.head - s.tail) in
    let copy : Copy = record {
      from = event_size * s.tail;
      size = if ltb held n then held else n;
    } in
    if ltb n event_size
    then some (2 ^ 64 - 1, none, s)
    else if s.locked
    then none
    else if s.head == s.tail
    then some (0, none, s)
    else if fails copy
    then some (2 ^ 64 - 1, some copy, record s { locked = true })
    else some (copy.size, some copy, record s { tail = s.head })

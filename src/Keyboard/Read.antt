-- ===== src/Keyboard/Read.antt =====
-- Reading the pending events out of the buffer.
use zrhos.Base.{
  ◌↔◌, ℕ, zero, suc, ◌+◌, ◌-◌, ◌*◌, ◌≤◌, ◌<◌, ◌≡◌, refl, Bool, true, false, none, some, [], arith,
  ltb,
}
use zrhos.Keyboard.{
  InputEvent, Keyboard, Copy, event_size, buf_size, keyboard_intr, keyboard_read_event,
}
use zrhos.Keyboard.Queue.{IsValid, window, pending}

-- The bytes that a read asks for lie in `buffer`.
abbrev pub WithinBuffer : Copy → Type 0
WithinBuffer c = c.from + c.size ≤ event_size * buf_size

-- A read with room for every pending event, at least one, empties the queue, says how many bytes
-- it took, and stays inside the buffer exactly while the write index has not passed its end.
pub read_all_lem :
    (n : ℕ) (s : Keyboard)
    → IsValid s
    → s.locked ≡ false
    → s.tail < s.head
    → event_size * (s.head - s.tail) ≤ n
    → (c : Copy) × (keyboard_read_event (λ _. false) n s
        ≡ some (event_size * (s.head - s.tail), some c, record s { tail = s.head }))
      × (pending (record s { tail = s.head }) ≡ [])
      × (WithinBuffer c ↔ (s.head ≤ 128))
unfolding keyboard_read_event
read_all_lem n s v free some_held room = (
  record { from = event_size * s.tail; size = event_size * (s.head - s.tail) },
  ground arith,
  none_left (s.head - s.head) (omega arith),
  ((λ inside. omega (arith, inside)), (λ h. omega arith)),
)
  where
    none_left : (k : ℕ) → k ≡ 0 → window s.buffer s.head k ≡ []
    none_left zero h = refl
    none_left (suc k) h = absurd (omega arith)

-- A read whose copy fails keeps the lock: after it no interrupt and no read with room for an event
-- returns.
pub failed_copy_lem :
    (fails fails' : Copy → Bool) (n m value : ℕ) (s t : Keyboard) (c : Copy) (e : InputEvent)
    → keyboard_read_event fails n s ≡ some (value, some c, t)
    → fails c ≡ true
    → event_size ≤ m
    → (keyboard_intr e t ≡ none) × (keyboard_read_event fails' m t ≡ none)
unfolding keyboard_intr keyboard_read_event
failed_copy_lem fails fails' n m value s t c e ran failed room =
    let held : t.locked ≡ true = ground arith in
    let enough : ltb m event_size ≡ false = ground arith in (rw held, rw (enough, held))

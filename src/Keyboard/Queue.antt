-- ===== src/Keyboard/Queue.antt =====
-- The ring of keyboard.c as a queue of characters. A full ring is told from an empty one by nothing:
-- the two indices are equal in both, so it holds 255 characters at most.
use matrix_os.Prelude.{
  ℕ, zero, suc, ◌+◌, ◌-◌, ◌%◌, ◌<◌, ◌≡◌, ◌≢◌, refl, ap, ◌∙◌, inl, inr, ◌||◌, List, [], ◌∷◌, ◌++◌,
  arith, ◌==◌, ltb, if◌then◌else◌, Bool-cases, length, get_or, set, length-set, get_or-set_self,
  get_or-set_ne, ==_false→ne, ne→==_false, true, false,
}
use matrix_os.Pic.{Ports, pic_eoi}
use matrix_os.Keyboard.{
  Keyboard, put_char, scancode_to_char, keyboard_input_handler, interrupt_handler, isr_common_stub,
  keyboard_get_char,
}

-- The `n` bytes of the ring from index `h` on.
abbrev pub window : List ℕ → ℕ → ℕ → List ℕ
window buf h zero = []
window buf h (suc n) = get_or buf h 0 ∷ window buf ((h + 1) % 256) n

-- How many characters wait: the distance from `ktail` to `khead` round the ring.
abbrev pub pending : Keyboard → ℕ
pending k = (k.khead + 256 - k.ktail) % 256

abbrev pub contents : Keyboard → List ℕ
contents k = window k.kbuf k.ktail (pending k)

-- No waiting character is 0, which `keyboard_get_char` returns for "none".
abbrev pub AllTyped : List ℕ → Type 0
AllTyped [] = Unit
AllTyped (c ∷ q) = (0 < c) × AllTyped q

pub record IsValid (k : Keyboard) : Type 0 where
  pub size : length k.kbuf ≡ 256
  pub head_in : k.khead < 256
  pub tail_in : k.ktail < 256
  pub typed : AllTyped (contents k)

-- The keyboard after `ktail = (ktail + 1) % KBUF_SIZE`.
abbrev pub advance : Keyboard → Keyboard
advance k = record k { ktail = (k.ktail + 1) % 256 }

-- What the ring promises: a queue that a character joins at the end, and that loses all it holds
-- when the 256th character comes.
abbrev pub type_ahead : List ℕ → ℕ → List ℕ
type_ahead q c = if ltb (length q) 255 then q ++ c ∷ [] else []

length-window : (buf : List ℕ) (h n : ℕ) → length (window buf h n) ≡ n
length-window buf h zero = refl
length-window buf h (suc n) = ap suc (length-window buf ((h + 1) % 256) n)

pub length-contents : (k : Keyboard) → length (contents k) ≡ pending k
length-contents k = length-window k.kbuf k.ktail (pending k)

-- The byte behind a window joins it at the end.
window-snoc :
    (buf : List ℕ) (c h n i : ℕ)
    → length buf ≡ 256
    → h < 256
    → n < 256
    → i ≡ (h + n) % 256
    → window (set buf i c) h (suc n) ≡ window buf h n ++ c ∷ []
window-snoc buf c h zero i s hh hn e =
    let at : i ≡ h = omega arith in rw (at, get_or-set_self buf h c 0 (omega arith))
window-snoc buf c h (suc n) i s hh hn e = cc (
  get_or-set_ne buf i h c 0 (omega arith),
  window-snoc buf c ((h + 1) % 256) n i s (omega arith) (omega arith) (omega arith),
)

contents-put_char :
    (c : ℕ) (k : Keyboard)
    → length k.kbuf ≡ 256
    → k.khead < 256
    → k.ktail < 256
    → contents (put_char c k) ≡ type_ahead (contents k) c
unfolding put_char
contents-put_char c k s h t = elim (Bool-cases (ltb (pending k) 255)) [
  | inl room ↦
      let grows : pending (put_char c k) ≡ suc (pending k) = ground arith in
      let joins =
        window-snoc k.kbuf c k.ktail (pending k) k.khead s t (omega arith) (omega arith) in
      rw (length-contents k, room) (ap (window (set k.kbuf k.khead c) k.ktail) grows ∙ joins)
  | inr full ↦
      let none_left : pending (put_char c k) ≡ 0 = ground arith in
      rw (length-contents k, full) (ap (window (set k.kbuf k.khead c) k.ktail) none_left)
]

AllTyped-append : (q : List ℕ) (c : ℕ) → AllTyped q → 0 < c → AllTyped (q ++ c ∷ [])
AllTyped-append [] c h p = (p, tt)
AllTyped-append (x ∷ q) c h p = (h.0, AllTyped-append q c h.1 p)

AllTyped-type_ahead : (q : List ℕ) (c : ℕ) → AllTyped q → 0 < c → AllTyped (type_ahead q c)
AllTyped-type_ahead q c h p = ground (arith, AllTyped-append q c h p)

pub put_char-IsValid : (c : ℕ) (k : Keyboard) → 0 < c → IsValid k → IsValid (put_char c k)
put_char-IsValid c k p v = record {
  size = unfold put_char in (length-set k.kbuf k.khead c ∙ v.size);
  head_in = unfold put_char in omega arith;
  tail_in = unfold put_char in v.tail_in;
  typed =
      rw (contents-put_char c k v.size v.head_in v.tail_in)
        (AllTyped-type_ahead (contents k) c v.typed p);
}

-- The character of a scan code, if the byte is a key and no status byte of the controller.
abbrev pub key_of : ℕ → ℕ
key_of sc = if sc == 0xFA || sc == 0xAA || sc == 0x00 || sc == 0xFF then 0 else scancode_to_char sc

keyboard_input_handler_cases :
    (sc : ℕ) (k : Keyboard) (io : Ports)
    → keyboard_input_handler sc k io
      ≡ (if key_of sc == 0 then k else put_char (key_of sc) k, (0x20, 0x20) ∷ io)
unfolding keyboard_input_handler pic_eoi
keyboard_input_handler_cases sc k io = ground arith

-- The C handler of the keyboard interrupt keeps the ring well formed and hands the queue the key's
-- character, if the scan code has one; for a status byte, a release and a dead key the queue stays as
-- it is. In every case the handler itself acknowledges the master controller once, and writes nothing
-- else to a port.
pub keyboard_input_handler_lem :
    (sc : ℕ) (k : Keyboard) (io : Ports)
    → IsValid k
    → (contents (keyboard_input_handler sc k io).0
        ≡ (if key_of sc == 0 then contents k else type_ahead (contents k) (key_of sc)))
      × IsValid (keyboard_input_handler sc k io).0
      × ((keyboard_input_handler sc k io).1 ≡ (0x20, 0x20) ∷ io)
keyboard_input_handler_lem sc k io v =
    rw (keyboard_input_handler_cases sc k io) (elim (Bool-cases (key_of sc == 0)) [
      | inl dead ↦ rw dead (refl, v, refl)
      | inr key ↦ rw key (
        contents-put_char (key_of sc) k v.size v.head_in v.tail_in,
        put_char-IsValid (key_of sc) k (ground arith) v,
        refl,
      )
    ])

-- An interrupt whose vector comes without an error code, from its entry in the assembly code to its end:
-- the ring stays well formed, and the keyboard's vector, 33, hands the queue the key's character, if
-- the scan code has one, while any other leaves it as it is. The master controller is acknowledged by
-- the assembly code, and for the keyboard's vector by the handler, too: twice for one interrupt.
pub isr_common_stub_lem :
    (n sc : ℕ) (k : Keyboard) (io : Ports)
    → IsValid k
    → (contents (isr_common_stub n sc k io).0 ≡ (
        if n == 33
        then (if key_of sc == 0 then contents k else type_ahead (contents k) (key_of sc))
        else contents k))
      × IsValid (isr_common_stub n sc k io).0
      × ((isr_common_stub n sc k io).1 ≡ (0x20, 0x20) ∷ (if n == 33 then (0x20, 0x20) ∷ io else io))
unfolding isr_common_stub interrupt_handler
isr_common_stub_lem n sc k io v = elim (Bool-cases (n == 33)) [
  | inl e ↦
      let (queue, valid, once) = keyboard_input_handler_lem sc k io v in
      rw e (queue, valid, ap (◌∷◌ (0x20, 0x20)) once)
  | inr e ↦ rw e (refl, v, refl)
]

keyboard_get_char-empty :
    (k : Keyboard) → (k.khead == k.ktail) ≡ true → keyboard_get_char k ≡ (0, k)
unfolding keyboard_get_char
keyboard_get_char-empty k e = rw e

keyboard_get_char-some :
    (k : Keyboard)
    → (k.khead == k.ktail) ≡ false
    → keyboard_get_char k ≡ (get_or k.kbuf k.ktail 0, advance k)
unfolding keyboard_get_char
keyboard_get_char-some k e = rw e

contents-front :
    (k : Keyboard)
    → k.khead < 256
    → k.ktail < 256
    → k.khead ≢ k.ktail
    → contents k ≡ get_or k.kbuf k.ktail 0 ∷ contents (advance k)
contents-front k h t ne =
    let rest : pending k ≡ suc (pending (advance k)) = omega arith in
    ap (window k.kbuf k.ktail) rest

-- `keyboard_get_char` takes the oldest character off the queue and moves `ktail` on; exactly when none
-- waits it returns 0 and changes nothing.
pub keyboard_get_char_lem :
    (k : Keyboard)
    → IsValid k
    → (contents k ≡ (let (c, k') = keyboard_get_char k in if c == 0 then [] else c ∷ contents k'))
      × IsValid (keyboard_get_char k).1
      × ((keyboard_get_char k).1 ≡ (if (keyboard_get_char k).0 == 0 then k else advance k))
keyboard_get_char_lem k v = elim (Bool-cases (k.khead == k.ktail)) [
  | inl none_left ↦
      let gone : pending k ≡ 0 = ground arith in
      rw (keyboard_get_char-empty k none_left) (ap (window k.kbuf k.ktail) gone, v, refl)
  | inr waits ↦
      let front = contents-front k v.head_in v.tail_in (==_false→ne _ _ waits) in
      let typed = rw front at v.typed in
      rw (keyboard_get_char-some k waits) (
        rw (front, ne→==_false (get_or k.kbuf k.ktail 0) 0 (omega arith)),
        record { size = v.size; head_in = v.head_in; tail_in = omega arith; typed = typed.1 },
        rw (ne→==_false (get_or k.kbuf k.ktail 0) 0 (omega arith)),
      )
]

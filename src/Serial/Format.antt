-- ===== src/Serial/Format.antt =====
-- serial_vprintf read as a function: the bytes that a format stands for.
use matrix_os.Prelude.{
  ℕ, ◌+◌, ◌%◌, ◌≡◌, refl, List, [], ◌∷◌, ◌++◌, ◌==◌, if◌then◌else◌, Option, none, some,
}
use matrix_os.Prelude.Int.{signed32}
use matrix_os.Pic.{Ports}
use matrix_os.Serial.{itoa_dec, itoa_hex}

-- The bytes of a C string before its terminator.
abbrev pub shown : List ℕ → List ℕ
shown [] = []
shown (c ∷ text) = let rest = shown text in if c == 0 then [] else c ∷ rest

abbrev pub printed : Option (List ℕ) → List ℕ
printed none = []
printed (some text) = text

-- Bytes sent to a port one after another.
abbrev pub sent : ℕ → List ℕ → Ports → Ports
sent port [] io = io
sent port (c ∷ text) io = sent port text ((port, c % 256) ∷ io)

-- What the characters of the format stand for: the number of the next argument, and
-- the bytes.
unfoldable pub conversion : (ℕ → ℕ) → (ℕ → List ℕ) → ℕ → ℕ → ℕ × List ℕ
conversion args text_at c i =
    if c == b'd'
    then (i + 1, shown (printed (itoa_dec (signed32 (args i)))))
    else if c == b'x'
    then (i + 1, shown (printed (itoa_hex (args i))))
    else if c == b's'
    then (i + 1, shown (text_at (args i)))
    else if c == b'c'
    then (i + 1, (args i % 256) ∷ [])
    else if c == b'p'
    then (i + 1, b'0' ∷ b'x' ∷ shown (printed (itoa_hex (args i))))
    else if c == b'%'
    then (i, b'%' ∷ [])
    else (i, b'%' ∷ c ∷ [])

unfoldable pub formatted : (ℕ → ℕ) → (ℕ → List ℕ) → List ℕ → ℕ → List ℕ
formatted args text_at [] i = []
formatted args text_at (c ∷ []) i =
    if c == 0 then [] else if c == b'%' then (conversion args text_at 0 i).1 else c ∷ []
formatted args text_at (c ∷ d ∷ format) i =
    let (next_argument, text) = conversion args text_at d i in
    let behind = formatted args text_at format next_argument in
    let next = formatted args text_at (d ∷ format) i in
    if c == 0 then [] else if c == b'%' then text ++ behind else c ∷ next

pub sent-append :
    (port : ℕ) (text more : List ℕ) (io : Ports)
    → sent port (text ++ more) io ≡ sent port more (sent port text io)
sent-append port [] more io = refl
sent-append port (c ∷ text) more io = sent-append port text more ((port, c % 256) ∷ io)

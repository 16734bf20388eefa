-- ===== src/Serial/Output.antt =====
-- serial_vprintf on a port that gets ready again and again: it returns, and what it has sent.
use matrix_os.Prelude.{
  ℕ, zero, suc, ◌+◌, ◌%◌, ◌^◌, ◌<◌, ◌≡◌, ◌≢◌, refl, sym, ap, ◌∙◌, List, [], ◌∷◌, arith, ◌==◌,
  Bool-cases, inl, inr, Option, some, ◌>>=◌, ==→eq, ne→==_false, ==_false→ne,
}
use matrix_os.Prelude.Int.{signed32}
use mathlib.Core.Option
use Prim.Native.Nat.{bit_and}
use matrix_os.Serial.{
  Uart, dec_loop, reverse_in_place, swap_ends, itoa_dec, wait_from, serial_transmit_empty,
  serial_write_char, serial_write, convert, serial_vprintf,
}
use matrix_os.Serial.Digits.{itoa_dec_lem, itoa_hex_lem}
use matrix_os.Serial.Format.{shown, sent, conversion, formatted, sent-append}

-- A step that returns and has sent `text`.
record Sends (port : ℕ) (text : List ℕ) (u : Uart) (result : Option Uart) : Type 0 where
  after : Uart
  returns : result ≡ some after
  output : after.io ≡ sent port text u.io

-- `-num` overflows for the least int: its one digit is '0' - 8 and comes before the sign.
least_int_text : itoa_dec (signed32 (2 ^ 31)) ≡ some (b'-' ∷ 40 ∷ [])
unfolding itoa_dec dec_loop reverse_in_place swap_ends
least_int_text = refl

itoa_dec-some : (w : ℕ) → w < 2 ^ 32 → (text : List ℕ) × (itoa_dec (signed32 w) ≡ some text)
itoa_dec-some w word = elim (Bool-cases (w == 2 ^ 31)) [
  | inl e ↦ rw (==→eq w (2 ^ 31) e) (b'-' ∷ 40 ∷ [], least_int_text)
  | inr e ↦
      let (text, returns, fits, reads) = itoa_dec_lem w word (==_false→ne w (2 ^ 31) e) in
      (text, returns)
]

-- The same for a conversion, which moves on in the arguments.
record Converts (port j : ℕ) (text : List ℕ) (u : Uart) (result : Option (ℕ × Uart)) : Type 0 where
  after : Uart
  returns : result ≡ some (j, after)
  output : after.io ≡ sent port text u.io

module _ (status : ℕ → ℕ) (patience port : ℕ) (delay : ℕ → ℕ) (soon : (n : ℕ) → delay n < patience)
    (ready : (n : ℕ) → bit_and (status (n + delay n)) 0x20 ≢ 0) where
  wait_from-some :
      (fuel n d : ℕ)
      → d < fuel
      → bit_and (status (n + d)) 0x20 ≢ 0
      → (m : ℕ) × (wait_from status patience port fuel n ≡ some m)
  unfolding wait_from serial_transmit_empty
  wait_from-some zero n d below free = absurd (omega arith)
  wait_from-some (suc fuel) n zero below free =
      let here = λ (e : bit_and (status n) 0x20 ≡ 0).
        free (ap (λ (k : ℕ). bit_and (status k) 0x20) (omega arith) ∙ e) in
      (n + 1, rw (ne→==_false (bit_and (status n) 0x20) 0 here) refl)
  wait_from-some (suc fuel) n (suc d) below free =
      let later = λ (e : bit_and (status (n + 1 + d)) 0x20 ≡ 0).
        free (ap (λ (k : ℕ). bit_and (status k) 0x20) (omega arith) ∙ e) in
      elim (Bool-cases (bit_and (status n) 0x20 == 0)) [
        | inl e ↦ rw e (wait_from-some fuel (n + 1) d (omega arith) later)
        | inr e ↦ (n + 1, rw e refl)
      ]

  char-Sends :
      (c : ℕ) (u : Uart) → Sends port (c ∷ []) u (serial_write_char status patience port c u)
  unfolding serial_write_char
  char-Sends c u =
      let (m, waited) =
        wait_from-some patience u.reads (delay u.reads) (soon u.reads) (ready u.reads) in
      record {
        after = record { reads = m; io = (port, c % 256) ∷ u.io };
        returns = rw waited refl;
        output = refl;
      }

  text-Sends :
      (text : List ℕ) (u : Uart)
      → Sends port (shown text) u (serial_write status patience port text u)
  unfolding serial_write
  text-Sends [] u = record { after = u; returns = refl; output = refl }
  text-Sends (c ∷ text) u = elim (Bool-cases (c == 0)) [
    | inl e ↦ rw e (record { after = u; returns = refl; output = refl })
    | inr e ↦
        let first = char-Sends c u in
        let rest = text-Sends text first.after in
        rw e (record {
          after = rest.after;
          returns = rw first.returns rest.returns;
          output = rest.output ∙ ap (sent port (shown text)) first.output;
        })
  ]

  module _ (args : ℕ → ℕ) (text_at : ℕ → List ℕ) (words : (i : ℕ) → args i < 2 ^ 32) where
    then_on :
        {text : List ℕ} {u : Uart} {result : Option Uart} (j : ℕ)
        → Sends port text u result
        → Converts port j text u (do v ← result; some (j, v))
    then_on j s = record { after = s.after; returns = rw s.returns refl; output = s.output }

    convert-Converts :
        (c i : ℕ) (u : Uart)
        → Converts port
            (conversion args text_at c i).0
            (conversion args text_at c i).1
            u
            (convert status patience port args text_at c i u)
    unfolding convert conversion
    convert-Converts c i u = elim (Bool-cases (c == b'd')) [
      | inl e ↦
          let (text, returns) = itoa_dec-some (args i) (words i) in
          rw (e, returns) (then_on (i + 1) (text-Sends text u))
      | inr not_d ↦ elim (Bool-cases (c == b'x')) [
        | inl e ↦
            let (text, returns, fits, reads) = itoa_hex_lem (args i) (words i) in
            rw (not_d, e, returns) (then_on (i + 1) (text-Sends text u))
        | inr not_x ↦ elim (Bool-cases (c == b's')) [
          | inl e ↦ rw (not_d, not_x, e) (then_on (i + 1) (text-Sends (text_at (args i)) u))
          | inr not_s ↦ elim (Bool-cases (c == b'c')) [
            | inl e ↦ rw (not_d, not_x, not_s, e) (then_on (i + 1) (char-Sends (args i % 256) u))
            | inr not_c ↦ elim (Bool-cases (c == b'p')) [
              | inl e ↦
                  let (text, returns, fits, reads) = itoa_hex_lem (args i) (words i) in
                  rw (not_d, not_x, not_s, not_c, e, returns)
                    (then_on (i + 1) (text-Sends (b'0' ∷ b'x' ∷ text) u))
              | inr not_p ↦ elim (Bool-cases (c == b'%')) [
                | inl e ↦ rw (not_d, not_x, not_s, not_c, not_p, e) (then_on i (char-Sends b'%' u))
                | inr other ↦
                    let first = char-Sends b'%' u in
                    let second = char-Sends c first.after in
                    rw (not_d, not_x, not_s, not_c, not_p, other)
                      (record {
                        after = second.after;
                        returns = rw (first.returns, second.returns) refl;
                        output = second.output ∙ ap (sent port (c ∷ [])) first.output;
                      })
              ]
            ]
          ]
        ]
      ]
    ]

    vprintf-Sends :
        (format : List ℕ) (i : ℕ) (u : Uart)
        → Sends port
            (formatted args text_at format i)
            u
            (serial_vprintf status patience port args text_at format i u)
    unfolding serial_vprintf formatted
    vprintf-Sends [] i u = record { after = u; returns = refl; output = refl }
    vprintf-Sends (c ∷ []) i u = elim (Bool-cases (c == 0)) [
      | inl e ↦ rw e (record { after = u; returns = refl; output = refl })
      | inr more ↦ elim (Bool-cases (c == b'%')) [
        | inl e ↦
            let s = convert-Converts 0 i u in
            rw (more, e)
              (record { after = s.after; returns = rw s.returns refl; output = s.output })
        | inr e ↦ rw (more, e) (char-Sends c u)
      ]
    ]
    vprintf-Sends (c ∷ d ∷ format) i u = elim (Bool-cases (c == 0)) [
      | inl e ↦ rw e (record { after = u; returns = refl; output = refl })
      | inr more ↦ elim (Bool-cases (c == b'%')) [
        | inl e ↦
            let s = convert-Converts d i u in
            let rest = vprintf-Sends format (conversion args text_at d i).0 s.after in
            rw (more, e)
              (record {
                after = rest.after;
                returns = rw s.returns rest.returns;
                output =
                    rest.output
                    ∙ (ap
                          (sent port
                            (formatted args text_at format (conversion args text_at d i).0))
                          s.output
                        ∙ sym (
                            sent-append port (conversion args text_at d i).1
                              (formatted args text_at format (conversion args text_at d i).0)
                              u.io));
              })
        | inr e ↦
            let s = char-Sends c u in
            let rest = vprintf-Sends (d ∷ format) i s.after in
            rw (more, e)
              (record {
                after = rest.after;
                returns = rw s.returns rest.returns;
                output =
                    rest.output ∙ ap (sent port (formatted args text_at (d ∷ format) i)) s.output;
              })
      ]
    ]

    -- On a port whose transmitter is ready at the latest at the last of the `patience` reads of each
    -- wait, serial_vprintf returns, for every format and all arguments, and has sent the bytes that
    -- the format stands for in their order, and nothing else.
    pub serial_vprintf_lem :
        (format : List ℕ) (i : ℕ) (u : Uart)
        → Option.map (λ v. v.io) (serial_vprintf status patience port args text_at format i u)
          ≡ some (sent port (formatted args text_at format i) u.io)
    serial_vprintf_lem format i u =
        let s = vprintf-Sends format i u in rw s.returns (ap some s.output)

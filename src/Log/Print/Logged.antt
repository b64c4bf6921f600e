-- ===== src/Log/Print/Logged.antt =====
-- Where a message goes that is put into the log (DeviceMon/log.cpp).
use mathlib.Core.List.{append_assoc}
use device_mon.Prelude.{
  ℕ, zero, suc, ◌+◌, ◌≡◌, refl, sym, ap, ◌∙◌, Bool, true, false, ◌&&◌, some, List, [], ◌∷◌, ◌++◌,
  arith, ltb, ◌==◌, if◌then◌else◌, field, Bytes, Bool-cases, inl, inr, if_true, if_false,
}
use device_mon.Log.Text.{length, Stands}
use device_mon.Log.Buffer.{Output, StringCopy, ◌>>=◌, do_dbg_print, buffer_message}
use device_mon.Log.Entries.{IsMessage, Entry, stored, print_text}
use device_mon.Log.Flush.{do_dbg_print-printed}
use device_mon.Log.Whole.{texts, all_written, all_written-file, Holds, flush_log_buffer-written}
use device_mon.Log.Added.{IsCopy, Buffered, buffer_message-Buffered}
use device_mon.Log.Print.{
  LogState, Caller, clock_level, is_dbg_print_needed, set_message_bit, memory_of, write_through,
  put_aside, log_entry, print_message, enter, put,
}

-- Whether the file can be written at once.
abbrev pub can_write : Caller → (attribute : ℕ) → LogState → Bool
can_write c attribute l = (field 0 1 attribute == 0) && (c.irql == 0 && l.activated)

-- Whether the debugger may be called.
abbrev pub can_print : Caller → (attribute : ℕ) → Bool
can_print c attribute = (field 0 1 attribute == 0) && ltb c.irql clock_level

-- The debugger has been given the line, or nothing.
abbrev pub printed : Bool → List ℕ → Output → List (List ℕ)
printed prints s out = if prints then out.debugger ++ (print_text s ∷ []) else out.debugger

-- What the message `s` becomes in a state that holds the entries `xs`.
pub data Logged (c : Caller) (attribute : ℕ) (s : List ℕ) (xs : List Entry) (l : LogState)
    : Bool × LogState → Type 0 where
  saved :
      {l' : LogState}
      → can_write c attribute l ≡ true
      → c.apcs_disabled ≡ false
      → Holds l'.info []
      → l'.out.file ≡ l.out.file ++ (texts xs ++ (s ∷ []))
      → l'.out.debugger
        ≡ printed
            (can_print c attribute && is_dbg_print_needed l.debug_flag)
            s
            (all_written (is_dbg_print_needed l.debug_flag) xs l.out)
      → Logged c attribute s xs l (c.flushes, l')
  dropped :
      {l' : LogState}
      → can_write c attribute l ≡ true
      → c.apcs_disabled ≡ true
      → l'.info ≡ l.info
      → l'.out.file ≡ l.out.file
      → l'.out.debugger
        ≡ printed (can_print c attribute && is_dbg_print_needed l.debug_flag) s l.out
      → Logged c attribute s xs l (true, l')
  buffered :
      {l' : LogState} {status : Bool}
      → can_write c attribute l ≡ false
      → Buffered l.info xs (can_print c attribute) s (status, l'.info)
      → l'.out.file ≡ l.out.file
      → l'.out.debugger
        ≡ printed (can_print c attribute && is_dbg_print_needed l.debug_flag) s l.out
      → Logged c attribute s xs l (status, l')

Stands-memory_of :
    (s : List ℕ) (a : ℕ) (m : Bytes) → ((x : ℕ) → m (a + x) ≡ memory_of s x) → Stands s a m
Stands-memory_of [] a m same = tt
Stands-memory_of (c ∷ s) a m same = (
  ap m (omega arith) ∙ same zero,
  Stands-memory_of s (a + 1) m (λ x. ap m (omega arith) ∙ same (suc x)),
)

abbrev with_debugger : List (List ℕ) → LogState → LogState
with_debugger lines l = record l { out = record l.out { debugger = lines } }

do_dbg_print-silent :
    (n a : ℕ) (out : Output) (m : Bytes) → do_dbg_print false n a out m ≡ some (out, m)
unfolding do_dbg_print
do_dbg_print-silent n a out m = refl

zero_plus : (x : ℕ) → 0 + x ≡ x
zero_plus x = omega arith

print_message-printed :
    (prints status : Bool) (s : List ℕ) (l : LogState)
    → IsMessage s
    → print_message prints (status, s, l)
      ≡ some
          (status, with_debugger (printed (prints && is_dbg_print_needed l.debug_flag) s l.out) l)
unfolding print_message
print_message-printed false status s l message = refl
print_message-printed true status [] l message = absurd message
print_message-printed true status (c ∷ []) l message = absurd (omega arith)
print_message-printed true status (c ∷ d ∷ s) l message =
    elim (Bool-cases (is_dbg_print_needed l.debug_flag)) [
      | inl needed ↦
          rw
            (
              needed,
              do_dbg_print-printed c d s 0 l.out (memory_of (c ∷ d ∷ s)) (
                  Stands-memory_of (c ∷ d ∷ s) 0 (memory_of (c ∷ d ∷ s))
                    (λ x. ap (memory_of (c ∷ d ∷ s)) (zero_plus x))),
              ◌>>=◌,
            )
            refl
      | inr silent ↦
          rw
            (
              silent,
              do_dbg_print-silent (length (c ∷ d ∷ s)) 0 l.out (memory_of (c ∷ d ∷ s)),
              ◌>>=◌,
            )
            refl
    ]

cleared :
    (prints : Bool) (s : List ℕ)
    → IsMessage s
    → set_message_bit false (if prints then set_message_bit true s else s) ≡ s
cleared prints [] message = absurd message
cleared true (c ∷ s) message = ap (λ c. c ∷ s) (omega (arith, message.1))
cleared false (c ∷ s) message = ap (λ c. c ∷ s) (omega (arith, message.1))

marked-stored :
    (prints : Bool) (s : List ℕ) → (if prints then set_message_bit true s else s) ≡ stored prints s
marked-stored true [] = refl
marked-stored false [] = refl
marked-stored true (c ∷ s) = refl
marked-stored false (c ∷ s) = refl

module _ (copy : StringCopy) (promised : IsCopy copy) (c : Caller) (attribute : ℕ) (s : List ℕ)
    (message : IsMessage s) where
  -- The debugger after the rest.
  put-entered :
      (l l' : LogState) (status : Bool)
      → l.enabled ≡ true
      → l'.debug_flag ≡ l.debug_flag
      → log_entry copy c (field 0 1 attribute == 0) (can_print c attribute) s l
        ≡ some (status, s, l')
      → put copy c attribute s l
        ≡ some (
          status,
          with_debugger
              (printed (can_print c attribute && is_dbg_print_needed l.debug_flag) s l'.out)
              l',
        )
  unfolding put enter
  put-entered l l' status enabled same entered =
      rw
        (
          if_true (log_entry copy c (field 0 1 attribute == 0) (can_print c attribute) s l)
                (some (true, s, l)) enabled
              ∙ entered,
          sym same,
          ◌>>=◌,
        )
        (print_message-printed (can_print c attribute) status s l' message)

  entered-now :
      (l : LogState)
      → can_write c attribute l ≡ true
      → log_entry copy c (field 0 1 attribute == 0) (can_print c attribute) s l
        ≡ (if c.apcs_disabled then some (true, s, l) else write_through c s l)
  unfolding log_entry
  entered-now l now = if_true _ _ now

  entered-later :
      (l : LogState)
      → can_write c attribute l ≡ false
      → log_entry copy c (field 0 1 attribute == 0) (can_print c attribute) s l
        ≡ put_aside copy (can_print c attribute) s l
  unfolding log_entry
  entered-later l later = if_false _ _ later

  put_aside-stored :
      (l : LogState)
      → put_aside copy (can_print c attribute) s l ≡ (
          let done = buffer_message copy (stored (can_print c attribute) s) l.info in
          some (done.0, s, record l { info = done.1 }))
  unfolding put_aside
  put_aside-stored l =
      let prints : Bool = can_print c attribute in
      let marked : List ℕ = if prints then set_message_bit true s else s in
      ap
        (λ t.
          let done = buffer_message copy marked l.info in
          some (done.0, t, record l { info = done.1 }))
        (cleared prints s message)
      ∙ ap
          (λ t.
            let done = buffer_message copy t l.info in some (done.0, s, record l { info = done.1 }))
          (marked-stored prints s)

  write_through-saved :
      (l : LogState) (xs : List Entry)
      → Holds l.info xs
      → (l' : LogState) × (write_through c s l ≡ some (c.flushes, s, l'))
        × (l'.debug_flag ≡ l.debug_flag)
        × Holds l'.info []
        × (l'.out.file ≡ l.out.file ++ (texts xs ++ (s ∷ [])))
        × (l'.out.debugger ≡ (all_written (is_dbg_print_needed l.debug_flag) xs l.out).debugger)
  unfolding write_through
  write_through-saved l xs h =
      let needed : Bool = is_dbg_print_needed l.debug_flag in
      let (info, run, holds, empty) = flush_log_buffer-written needed l.out l.info xs h in
      let out = all_written needed xs l.out in
      (
        record l { info = info; out = record out { file = out.file ++ (s ∷ []) } },
        rw (run, ◌>>=◌) refl,
        refl,
        holds,
        ap (λ t. t ++ (s ∷ [])) (all_written-file needed xs l.out)
            ∙ append_assoc l.out.file (texts xs) (s ∷ []),
        refl,
      )

  -- Assume that `RtlStringCchCopyA` copies a text that is shorter than the size with its end,
  -- refuses a longer one and writes nothing outside of the size, and that a message has two bytes
  -- or more, none of them zero and the first below 0x80. With a file that is enabled and buffers
  -- that hold entries, `LogpPut` always returns. Where the file can be written, it writes the
  -- entries and then the message, unless all APCs are disabled: then the message gets neither to
  -- the file nor to a buffer, and the status is a success. Elsewhere it buffers the message, and
  -- the status tells whether there was room. The debugger is given the line if that is allowed
  -- and on.
  pub put-Logged :
      (l : LogState) (xs : List Entry)
      → l.enabled ≡ true
      → Holds l.info xs
      → (r : Bool × LogState) × (put copy c attribute s l ≡ some r) × Logged c attribute s xs l r
  put-Logged l xs enabled h =
      let prints : Bool = can_print c attribute in
      elim (Bool-cases (can_write c attribute l)) [
        | inl now ↦ elim (Bool-cases c.apcs_disabled) [
          | inl disabled ↦ (
            _,
            put-entered l l true enabled refl (entered-now l now ∙ if_true _ _ disabled),
            dropped now disabled refl refl refl,
          )
          | inr able ↦
              let (l', run, same, holds, file, lines) = write_through-saved l xs h in
              (
                _,
                put-entered l l' c.flushes enabled same
                    (entered-now l now ∙ (if_false _ _ able ∙ run)),
                saved now able holds file (
                    ap
                      (λ d.
                        printed (prints && is_dbg_print_needed l.debug_flag) s
                          (record l.out { debugger = d }))
                      lines),
              )
        ]
        | inr later ↦
            let done = buffer_message copy (stored prints s) l.info in
            (
              _,
              put-entered l (record l { info = done.1 }) done.0 enabled refl
                  (entered-later l later ∙ put_aside-stored l),
              buffered later (buffer_message-Buffered copy promised l.info xs prints s h message)
                  refl refl,
            )
      ]

-- ===== src/Log/Steps/Order.antt =====
-- The order in which the messages that are buffered get to the file (DeviceMon/log.cpp).
use mathlib.Core.List.{append_assoc, append-nil}
use mathlib.Core.Path.{subst}
use mathlib.Core.Option.{some-injective}
use device_mon.Prelude.{
  ℕ, ◌+◌, ◌≤◌, ◌≡◌, refl, sym, ap, ◌∙◌, ◌⊎◌, Bool, true, false, Option, none, some, List, [], ◌∷◌,
  ◌++◌, arith, ◌==◌, if◌then◌else◌, update, Bytes, test_of_eq, inl, inr,
}
use device_mon.Log.Text.{length}
use device_mon.Log.Buffer.{
  buffer_usable_size, LogBufferInfo, Output, StringCopy, head_buffer, other_buffer,
  set_other_buffer, buffer_message, switch_buffer, write_entry, new_buffer, new_buffers,
}
use device_mon.Log.Entries.{Entry, stored, Entries, Entries-le, Entries-same, written}
use device_mon.Log.Flush.{write_entry-WritesEntry}
use device_mon.Log.Whole.{
  texts, entry-nonzero, Holds, other-switched, switched-Holds, other-set_other, Holds-set_other,
}
use device_mon.Log.Added.{IsCopy, Buffered, added, full, buffer_message-Buffered}
use device_mon.Log.Steps.{
  Log, new_log, Step, buffer, switch, write, finish, Reach, here, more_steps,
}

-- The entries that the flush under way has still to write.
abbrev pub Saves : Option ℕ → List Entry → Bytes → Type 0
Saves none writing m = writing ≡ []
Saves (some a) writing m = (e : ℕ) × Entries writing a e m × (e ≤ buffer_usable_size)

pub record IsOrdered (l : Log) (taken : List Entry) : Type 0 where
  pub writing : List Entry
  pub pending : List Entry
  pub holds : Holds l.info pending
  pub saves : Saves l.position writing (other_buffer l.info)
  pub order : l.out.file ++ (texts writing ++ texts pending) ≡ texts taken

texts-append : (xs ys : List Entry) → texts (xs ++ ys) ≡ texts xs ++ texts ys
texts-append [] ys = refl
texts-append ((b, s) ∷ xs) ys = ap (λ t. s ∷ t) (texts-append xs ys)

buffer-IsOrdered :
    (l : Log) (taken pending : List Entry) (b : Bool) (s : List ℕ) (r : Bool × LogBufferInfo)
    (h : IsOrdered l taken)
    → Buffered l.info h.pending b s r
    → IsOrdered (record l { info = r.1 }) (taken ++ (if r.0 then (b, s) ∷ [] else []))
buffer-IsOrdered l taken pending b s _ h (added {info'} short holds within) = record {
  writing = h.writing;
  pending = h.pending ++ ((b, s) ∷ []);
  holds = holds;
  saves = rw within.other h.saves;
  order =
      rw (texts-append h.pending ((b, s) ∷ []), texts-append taken ((b, s) ∷ []), sym h.order)
        (ap (λ t. l.out.file ++ t) (sym (append_assoc (texts h.writing) (texts h.pending) (s ∷ [])))
          ∙ sym (append_assoc l.out.file (texts h.writing ++ texts h.pending) (s ∷ [])));
}
buffer-IsOrdered l taken pending b s _ h (full {info'} long holds within) = record {
  writing = h.writing;
  pending = h.pending;
  holds = holds;
  saves = rw within.other h.saves;
  order = h.order ∙ ap texts (sym (append-nil taken));
}

switch-IsOrdered :
    (l : Log) (taken : List Entry)
    → l.position ≡ none
    → IsOrdered l taken
    → IsOrdered (record l { info = switch_buffer l.info; position = some 0 }) taken
switch-IsOrdered l taken idle h =
    let nothing : h.writing ≡ [] =
      subst (λ p. Saves p h.writing (other_buffer l.info)) idle h.saves in
    record {
      writing = h.pending;
      pending = [];
      holds = switched-Holds l.info;
      saves = (l.info.log_buffer_tail, rw (other-switched l.info) h.holds.entries, h.holds.room);
      order =
          ap (λ t. l.out.file ++ t)
            (append-nil (texts h.pending) ∙ ap (λ w. texts w ++ texts h.pending) (sym nothing))
          ∙ h.order;
    }

-- What the flush finds where it is: the end, or a message that its step takes to the file.
data Found (needed : Bool) (l : Log) (taken : List Entry) (a : ℕ) : Type 0 where
  at_end :
      (other_buffer l.info a == 0) ≡ true
      → ((m : Bytes)
          → IsOrdered (record l { info = set_other_buffer m l.info; position = none }) taken)
      → Found needed l taken a
  at_message :
      (to : ℕ) (out : Output) (m : Bytes)
      → (other_buffer l.info a == 0) ≡ false
      → write_entry needed a l.out (other_buffer l.info) ≡ some (to, out, m)
      → IsOrdered (record { info = set_other_buffer m l.info; out = out; position = some to }) taken
      → Found needed l taken a

entries-Found :
    (needed : Bool) (l : Log) (taken : List Entry) (a e : ℕ) (writing pending : List Entry)
    → Entries writing a e (other_buffer l.info)
    → e ≤ buffer_usable_size
    → Holds l.info pending
    → l.out.file ++ (texts writing ++ texts pending) ≡ texts taken
    → Found needed l taken a
entries-Found needed l taken a e [] pending standing room holds order =
    at_end (test_of_eq (other_buffer l.info a) 0 standing.1) (λ m. record {
      writing = [];
      pending = pending;
      holds = Holds-set_other m l.info pending holds;
      saves = refl;
      order = order;
    })
entries-Found needed l taken a e ((b, s) ∷ xs) pending standing room holds order =
    let m : Bytes = other_buffer l.info in
    let low = Entries-le xs (a + (length s + 1)) e m standing.3 in
    let (m', run, kept) =
      write_entry-WritesEntry needed b s a l.out m standing.0 standing.1 standing.2 (omega arith) in
    at_message (a + (length s + 1)) (written needed b s l.out) m'
      (entry-nonzero b s a m standing.0 standing.1) run
      (record {
        writing = xs;
        pending = pending;
        holds = Holds-set_other m' l.info pending holds;
        saves = (
          e,
          rw (other-set_other m' l.info) (
              Entries-same xs (a + (length s + 1)) e m m' (λ x from below. kept x (omega arith))
                standing.3),
          room,
        );
        order = append_assoc l.out.file (s ∷ []) (texts xs ++ texts pending) ∙ order;
      })

flush-Found :
    (needed : Bool) (l : Log) (taken : List Entry) (a : ℕ)
    → l.position ≡ some a
    → IsOrdered l taken
    → Found needed l taken a
flush-Found needed l taken a at h =
    let (e, standing, room) : Saves (some a) h.writing (other_buffer l.info) =
      subst (λ p. Saves p h.writing (other_buffer l.info)) at h.saves in
    entries-Found needed l taken a e h.writing h.pending standing room h.holds h.order

write-IsOrdered :
    (needed : Bool) (l : Log) (taken : List Entry) (a to : ℕ) (out : Output) (m : Bytes)
    → (other_buffer l.info a == 0) ≡ false
    → write_entry needed a l.out (other_buffer l.info) ≡ some (to, out, m)
    → Found needed l taken a
    → IsOrdered (record { info = set_other_buffer m l.info; out = out; position = some to }) taken
write-IsOrdered needed l taken a to out m more run (at_end empty ordered) = absurd (cc)
write-IsOrdered needed l taken a to out m more run (at_message to' out' m' more' run' ordered) =
    let same = some-injective (to', out', m') (to, out, m) (sym run' ∙ run) in
    subst
      (λ (t : ℕ × Output × Bytes).
        IsOrdered (record { info = set_other_buffer t.2 l.info; out = t.1; position = some t.0 })
          taken)
      same ordered

finish-IsOrdered :
    (needed : Bool) (l : Log) (taken : List Entry) (a : ℕ) (m : Bytes)
    → (other_buffer l.info a == 0) ≡ true
    → Found needed l taken a
    → IsOrdered (record l { info = set_other_buffer m l.info; position = none }) taken
finish-IsOrdered needed l taken a m empty (at_end empty' ordered) = ordered m
finish-IsOrdered needed l taken a m empty (at_message to out m' more run ordered) = absurd (cc)

new_log-IsOrdered : IsOrdered new_log []
unfolding new_log new_buffers new_buffer
new_log-IsOrdered = record {
  writing = [];
  pending = [];
  holds = record { entries = (refl, refl); room = omega arith };
  saves = refl;
  order = refl;
}

empty-Entries : (xs : List Entry) (e : ℕ) (m : Bytes) → Entries xs 0 e m → m 0 ≡ 0 → xs ≡ []
empty-Entries [] e m h empty = refl
empty-Entries ((b, s) ∷ xs) e m h empty =
    let full = entry-nonzero b s 0 m h.0 h.1 in
    let none_left = test_of_eq (m 0) 0 empty in absurd (cc)

found-goes_on :
    {needed : Bool} {l : Log} {taken : List Entry} {a : ℕ}
    → Found needed l taken a
    → ((other_buffer l.info a == 0) ≡ true)
      ⊎ ((r : ℕ × Output × Bytes) × (write_entry needed a l.out (other_buffer l.info) ≡ some r))
found-goes_on (at_end empty ordered) = inl empty
found-goes_on (at_message to out m more run ordered) = inr ((to, out, m), run)

module _ (copy : StringCopy) (promised : IsCopy copy) (needed : Bool) where
  Step-IsOrdered :
      {l l' : Log} {taken more : List Entry}
      → Step copy needed l l' more
      → IsOrdered l taken
      → IsOrdered l' (taken ++ more)
  Step-IsOrdered {l} {taken = taken} (buffer b s message e e') h =
      rw (e, e')
        (buffer-IsOrdered l taken h.pending b s (buffer_message copy (stored b s) l.info) h
          (buffer_message-Buffered copy promised l.info h.pending b s h.holds message))
  Step-IsOrdered {l} {taken = taken} (switch idle e e') h =
      rw (e, e', append-nil taken) (switch-IsOrdered l taken idle h)
  Step-IsOrdered {l} {taken = taken} (write a to out m at more run e e') h =
      rw (e, e', append-nil taken)
        (write-IsOrdered needed l taken a to out m more run (flush-Found needed l taken a at h))
  Step-IsOrdered {l} {taken = taken} (finish a at empty e e') h =
      rw (e, e', append-nil taken)
        (finish-IsOrdered needed l taken a (update (other_buffer l.info) 0 0) empty
          (flush-Found needed l taken a at h))

  Reach-IsOrdered :
      {start l : Log} {taken : List Entry}
      → IsOrdered start []
      → Reach copy needed start l taken
      → IsOrdered l taken
  Reach-IsOrdered h here = h
  Reach-IsOrdered h (more_steps reached step e) =
      rw e (Step-IsOrdered step (Reach-IsOrdered h reached))

  -- Assume that `RtlStringCchCopyA` copies a text that is shorter than the size with its end,
  -- refuses a longer one and writes nothing outside of the size, and that a message has two bytes
  -- or more, none of them zero and the first below 0x80. Then, from the buffers as they are made
  -- on, whatever the order in which threads buffer messages and a flush switches the buffers,
  -- writes an entry and finishes: what is in the file, what the flush under way has still to
  -- write and what the buffer in use holds are together the messages that were taken up, in that
  -- order, each once and as it was put. The second stand in the buffer that is saved from where
  -- the flush has come, and are none without a flush; the third are exactly the entries of the
  -- buffer in use.
  pub log-InOrder :
      {l : Log} {taken : List Entry} → Reach copy needed new_log l taken → IsOrdered l taken
  log-InOrder reached = Reach-IsOrdered new_log-IsOrdered reached

  -- Assume that `RtlStringCchCopyA` copies a text that is shorter than the size with its end,
  -- refuses a longer one and writes nothing outside of the size, and that a message has two bytes
  -- or more, none of them zero and the first below 0x80. Where, after any such steps, no flush is
  -- under way and the first byte of the buffer in use is zero, the file has exactly the messages
  -- that were taken up, in their order.
  pub log-drained :
      {l : Log} {taken : List Entry}
      → Reach copy needed new_log l taken
      → l.position ≡ none
      → head_buffer l.info 0 ≡ 0
      → l.out.file ≡ texts taken
  log-drained {l} reached idle empty =
      let h = Reach-IsOrdered new_log-IsOrdered reached in
      let nothing : h.writing ≡ [] =
        subst (λ p. Saves p h.writing (other_buffer l.info)) idle h.saves in
      sym (append-nil l.out.file)
      ∙ ap (λ xs. l.out.file ++ (texts xs ++ [])) (sym nothing)
      ∙ ap (λ xs. l.out.file ++ (texts h.writing ++ texts xs))
          (sym (
            empty-Entries h.pending l.info.log_buffer_tail (head_buffer l.info) h.holds.entries
              empty))
      ∙ h.order

  -- Assume that `RtlStringCchCopyA` copies a text that is shorter than the size with its end,
  -- refuses a longer one and writes nothing outside of the size, and that a message has two bytes
  -- or more, none of them zero and the first below 0x80. Whatever steps were taken and whoever
  -- buffers messages meanwhile, a flush under way is either at the end of its entries or its next
  -- turn succeeds: it finds the end of the entry inside the buffer and writes nothing in front of
  -- it.
  pub log-goes_on :
      {l : Log} {taken : List Entry} (a : ℕ)
      → Reach copy needed new_log l taken
      → l.position ≡ some a
      → ((other_buffer l.info a == 0) ≡ true)
        ⊎ ((r : ℕ × Output × Bytes) × (write_entry needed a l.out (other_buffer l.info) ≡ some r))
  log-goes_on {l} {taken} a reached at =
      found-goes_on (flush-Found needed l taken a at (Reach-IsOrdered new_log-IsOrdered reached))

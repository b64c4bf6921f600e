-- ===== src/Log/Steps.antt =====
-- Threads that buffer messages while another one flushes (DeviceMon/log.cpp). What the spin lock
-- guards is one step; the resource lets one flush run at a time, and its loop runs outside of the
-- spin lock, a message at a step.
pub mod Order
use device_mon.Prelude.{
  ℕ, ◌≡◌, Bool, true, false, Option, none, some, List, [], ◌∷◌, ◌++◌, ◌==◌, if◌then◌else◌, update,
  Bytes,
}
use device_mon.Log.Buffer.{
  LogBufferInfo, Output, StringCopy, other_buffer, set_other_buffer, buffer_message, switch_buffer,
  write_entry, new_buffers,
}
use device_mon.Log.Entries.{IsMessage, Entry, stored}

-- `position` is that of the flush under way in the buffer that it saves.
pub record Log : Type 0 where
  pub info : LogBufferInfo
  pub out : Output
  pub position : Option ℕ

unfoldable pub new_log : Log
unfolding new_buffers
new_log = record { info = new_buffers; out = record { file = []; debugger = [] }; position = none }

-- The steps, with the messages that they take up.
pub data Step (copy : StringCopy) (needed : Bool) (l l' : Log) (more : List Entry) : Type 0 where
  buffer :
      (b : Bool) (s : List ℕ)
      → IsMessage s
      → l' ≡ record l { info = (buffer_message copy (stored b s) l.info).1 }
      → more ≡ (if (buffer_message copy (stored b s) l.info).0 then (b, s) ∷ [] else [])
      → Step copy needed l l' more
  switch :
      l.position ≡ none
      → l' ≡ record l { info = switch_buffer l.info; position = some 0 }
      → more ≡ []
      → Step copy needed l l' more
  write :
      (a to : ℕ) (out : Output) (m : Bytes)
      → l.position ≡ some a
      → (other_buffer l.info a == 0) ≡ false
      → write_entry needed a l.out (other_buffer l.info) ≡ some (to, out, m)
      → l' ≡ record { info = set_other_buffer m l.info; out = out; position = some to }
      → more ≡ []
      → Step copy needed l l' more
  finish :
      (a : ℕ)
      → l.position ≡ some a
      → (other_buffer l.info a == 0) ≡ true
      → l' ≡ record l {
        info = set_other_buffer (update (other_buffer l.info) 0 0) l.info;
        position = none;
      }
      → more ≡ []
      → Step copy needed l l' more

-- The states after any number of steps, with the messages taken up by then.
pub data Reach (copy : StringCopy) (needed : Bool) (start : Log) : Log → List Entry → Type 0 where
  here : Reach copy needed start start []
  more_steps :
      {l l' : Log} {taken more all : List Entry}
      → Reach copy needed start l taken
      → Step copy needed l l' more
      → all ≡ taken ++ more
      → Reach copy needed start l' all

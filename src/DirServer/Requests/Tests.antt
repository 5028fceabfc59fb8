-- ===== src/DirServer/Requests/Tests.antt =====
-- Tests and examples of DirServer.Requests and DirServer.Client.
use syssoft_labs.Prelude.{
  ℕ, ◌≡◌, ◌≢◌, refl, subst, Bool, true, false, Option, none, some, List, [], ◌∷◌, ◌++◌, map, arith,
  All, replicate, if◌then◌else◌,
}
use syssoft_labs.Prelude.CString.{CString, bytes, same}
use syssoft_labs.Prelude.Io.{got, end_of_file, failed}
use syssoft_labs.DirServer.Requests.{
  done, waits, fault, out_of_fuel, Environment, add_byte, read_line, holds, line_end, text_of,
  listed, listing, answer, reply, store_byte, answer_buffer, c_string, serve_requests, do_work,
}
use syssoft_labs.DirServer.Client.{sent, shown}
use syssoft_labs.DirServer.Requests.Receive.{do_work_safe}
use syssoft_labs.DirServer.Requests.Text.{IsGranted}
use syssoft_labs.DirServer.Requests.Protocol.{IsName, IsNaming, IsRequest, answers, do_work-sent}
use syssoft_labs.DirServer.Requests.Lost.{do_work-end_of_file, do_work-sent_missed}

-- A system with one directory. New memory holds `junk` everywhere.
abbrev with_junk : ℕ → ℕ → Environment
with_junk junk k = record {
  malloc_granted = true;
  realloc_granted = λ _. true;
  junk = λ _. junk;
  opendir = λ dir. if same dir (bytes "src") then some (bytes "a" ∷ bytes "b" ∷ []) else none;
}

abbrev dirs : List CString
dirs = bytes "src" ∷ bytes "x" ∷ []

answers_two :
    do_work (with_junk 0) (map got (sent dirs))
    ≡ done (
        bytes "src:"
        ++ 0x0a
          ∷ (0x09 ∷ bytes "a"
              ++ 0x0a
                ∷ (0x09 ∷ bytes "b"
                    ++ 0x0a
                      ∷ 0x00
                      ∷ (bytes "x:" ++ 0x0a ∷ (0x09 ∷ bytes "<error>" ++ 0x0a ∷ 0x00 ∷ [])))))
unfolding do_work serve_requests read_line add_byte holds line_end text_of listed listing answer
    reply store_byte answer_buffer c_string same sent
answers_two = refl

-- The allocator refuses, or the connection breaks.
refused :
    do_work (λ k. record (with_junk 0 k) { malloc_granted = false }) []
    ≡ done (bytes "server error" ++ 0x00 ∷ [])
unfolding do_work serve_requests
refused = refl

broken : do_work (with_junk 0) (got b's' ∷ failed ∷ []) ≡ done (bytes "server error" ++ 0x00 ∷ [])
unfolding do_work serve_requests read_line add_byte
broken = refl

granted : (junk j : ℕ) → IsGranted (with_junk junk j)
granted junk j = (refl, λ n. refl)

two_names :
    (t : Bool) (names : List CString)
    → (if t then some (bytes "a" ∷ bytes "b" ∷ []) else none) ≡ some names
    → All IsName names
two_names true names e =
    subst (λ (o : Option (List CString)). elim o [ none ↦ Unit {0} | some l ↦ All IsName l ]) e
      (ground arith)
two_names false names e = ground (arith, e)

naming : (j : ℕ) → IsNaming (with_junk 0 j)
naming j dir names e = two_names (same dir (bytes "src")) names e

dirs-IsRequest : All IsRequest dirs
dirs-IsRequest = ground arith

do_work-sent_example :
    (out : CString) × (do_work (with_junk 0) (map got (sent dirs)) ≡ done out)
    × (shown dirs out ≡ answers (with_junk 0) 0 dirs)
do_work-sent_example = do_work-sent (with_junk 0) dirs (granted 0) naming dirs-IsRequest refl

do_work-sent_missed_example : do_work (with_junk 7) (map got (sent dirs)) ≡ waits
do_work-sent_missed_example =
    do_work-sent_missed (with_junk 7) dirs (granted 7) dirs-IsRequest (omega arith)

do_work-end_of_file_example :
    do_work (with_junk 0) (map got (bytes "src") ++ replicate 5 end_of_file) ≡ waits
do_work-end_of_file_example =
    do_work-end_of_file (with_junk 0) (bytes "src") 5 (granted 0 0) (ground arith)

do_work_safe_example :
    (do_work (with_junk 0) (got b's' ∷ failed ∷ []) ≢ fault)
    × (do_work (with_junk 0) (got b's' ∷ failed ∷ []) ≢ out_of_fuel)
do_work_safe_example = do_work_safe (with_junk 0) (got b's' ∷ failed ∷ [])

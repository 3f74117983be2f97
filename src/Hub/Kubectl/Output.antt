-- ===== src/Hub/Kubectl/Output.antt =====
-- What a `kubectl` process that succeeds has printed
-- (components/idthw_hub/features/kubernetes/api/kubectl.ts).
use id_jag_the_hard_way.Base.{
  ℕ, ◌≤◌, ◌≡◌, refl, sym, ap, ◌∙◌, subst, true, false, Option, List, [], ◌∷◌, ◌++◌, inl, inr,
  Bool-cases, arith,
}
use mathlib.Core.List.{append_assoc, append-nil}
use id_jag_the_hard_way.Base.Text.{Text}
use id_jag_the_hard_way.Hub.Kubectl.{
  Run, Event, printed, complained, failed, resolved, started, append_output, on_event, on_events,
  on_close,
}

on_close-resolved :
    (r : Run) (code signal : Option Text) {out error : Text}
    → on_close r code signal ≡ resolved out error
    → (r.output_exceeded ≡ false) × (r.stdout ≡ out) × (r.stderr ≡ error)
unfolding on_close
on_close-resolved r code signal h = ground (arith, h)

module _ (byte_length : Text → ℕ) (utf8 : List ℕ → Text) where
  -- all that was printed to either stream, each chunk decoded by itself
  abbrev pub all_printed : List Event → Text
  all_printed [] = []
  all_printed (printed s ∷ es) = utf8 s ++ all_printed es
  all_printed (complained s ∷ es) = all_printed es
  all_printed (failed e ∷ es) = all_printed es

  abbrev pub all_complained : List Event → Text
  all_complained [] = []
  all_complained (printed s ∷ es) = all_complained es
  all_complained (complained s ∷ es) = utf8 s ++ all_complained es
  all_complained (failed e ∷ es) = all_complained es

  exceeded_stays :
      (r : Run) (es : List Event)
      → r.output_exceeded ≡ true
      → (on_events byte_length utf8 r es).output_exceeded ≡ true
  unfolding on_events on_event
  exceeded_stays r [] h = h
  exceeded_stays r (printed s ∷ es) h =
      exceeded_stays (on_event byte_length utf8 r (printed s)) es (ground (arith, h))
  exceeded_stays r (complained s ∷ es) h =
      exceeded_stays (on_event byte_length utf8 r (complained s)) es (ground (arith, h))
  exceeded_stays r (failed e ∷ es) h = exceeded_stays (on_event byte_length utf8 r (failed e)) es h

  within_before :
      (r : Run) (es : List Event)
      → (on_events byte_length utf8 r es).output_exceeded ≡ false
      → r.output_exceeded ≡ false
  within_before r es h = elim (Bool-cases r.output_exceeded) [
    | inl e ↦ let stays = exceeded_stays r es e in cc
    | inr e ↦ e
  ]

  -- one text that is printed within the limit
  on_printed :
      (r : Run) (s : List ℕ)
      → (on_event byte_length utf8 r (printed s)).output_exceeded ≡ false
      → (on_event byte_length utf8 r (printed s)).stdout ≡ r.stdout ++ utf8 s
  unfolding on_event append_output
  on_printed r s h = ground (arith, h)

  on_complained :
      (r : Run) (s : List ℕ)
      → (on_event byte_length utf8 r (complained s)).output_exceeded ≡ false
      → (on_event byte_length utf8 r (complained s)).stderr ≡ r.stderr ++ utf8 s
  unfolding on_event append_output
  on_complained r s h = ground (arith, h)

  pub record IsBounded (r : Run) : Type 0 where
    pub out_bounded : byte_length r.stdout ≤ 32768
    pub err_bounded : byte_length r.stderr ≤ 32768

  on_events-IsBounded :
      (r : Run) (es : List Event) → IsBounded r → IsBounded (on_events byte_length utf8 r es)
  unfolding on_events on_event append_output
  on_events-IsBounded r [] h = h
  on_events-IsBounded r (printed s ∷ es) h =
      on_events-IsBounded (on_event byte_length utf8 r (printed s)) es
        (ground (arith, h.out_bounded))
  on_events-IsBounded r (complained s ∷ es) h =
      on_events-IsBounded (on_event byte_length utf8 r (complained s)) es
        (ground (arith, h.err_bounded))
  on_events-IsBounded r (failed e ∷ es) h =
      on_events-IsBounded (on_event byte_length utf8 r (failed e)) es
        (record { out_bounded = h.out_bounded; err_bounded = h.err_bounded })

  on_events-all :
      (r : Run) (es : List Event)
      → (on_events byte_length utf8 r es).output_exceeded ≡ false
      → ((on_events byte_length utf8 r es).stdout ≡ r.stdout ++ all_printed es)
        × ((on_events byte_length utf8 r es).stderr ≡ r.stderr ++ all_complained es)
  unfolding on_events
  on_events-all r [] h = (sym (append-nil r.stdout), sym (append-nil r.stderr))
  on_events-all r (printed s ∷ es) h =
      let next = on_event byte_length utf8 r (printed s) in
      let (out, error) = on_events-all next es h in
      (
        out
            ∙ ap (λ (t : Text). t ++ all_printed es) (on_printed r s (within_before next es h))
            ∙ append_assoc r.stdout (utf8 s) (all_printed es),
        error ∙ unfold on_event in refl,
      )
  on_events-all r (complained s ∷ es) h =
      let next = on_event byte_length utf8 r (complained s) in
      let (out, error) = on_events-all next es h in
      (
        out ∙ unfold on_event in refl,
        error
            ∙ ap (λ (t : Text). t ++ all_complained es)
                (on_complained r s (within_before next es h))
            ∙ append_assoc r.stderr (utf8 s) (all_complained es),
      )
  on_events-all r (failed e ∷ es) h =
      let (out, error) = on_events-all (on_event byte_length utf8 r (failed e)) es h in
      (out ∙ unfold on_event in refl, error ∙ unfold on_event in refl)

  pub record IsWhole (es : List Event) (out error : Text) : Type 0 where
    pub whole_out : out ≡ all_printed es
    pub whole_err : error ≡ all_complained es
    pub out_short : byte_length out ≤ 32768
    pub err_short : byte_length error ≤ 32768

  -- A kubectl process that is reported to have succeeded gave all the chunks that it printed,
  -- on either stream and in order, each decoded by itself, which is at most 32,768 bytes on
  -- each; for a byte length that is at most the limit for the empty text.
  pub resolved-IsWhole :
      (es : List Event) (code signal : Option Text) {out error : Text}
      → byte_length [] ≤ 32768
      → on_close (on_events byte_length utf8 started es) code signal ≡ resolved out error
      → IsWhole es out error
  resolved-IsWhole es code signal {out} {error} empty h =
      let r = on_events byte_length utf8 started es in
      let bounded =
        on_events-IsBounded started es (record { out_bounded = empty; err_bounded = empty }) in
      let (within, eo, ee) = on_close-resolved r code signal h in
      let (whole, whole_error) = on_events-all started es within in
      record {
        whole_out = sym eo ∙ whole;
        whole_err = sym ee ∙ whole_error;
        out_short = subst (λ t. byte_length t ≤ 32768) eo bounded.out_bounded;
        err_short = subst (λ t. byte_length t ≤ 32768) ee bounded.err_bounded;
      }

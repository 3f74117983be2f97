-- ===== src/Base/Text/Words.antt =====
-- Splitting a text into words undoes joining them by blanks.
use Prim.Native.Nat.{ℕ}
use mathlib.Core.Path.{◌≡◌, refl, sym, ap, ◌∙◌}
use mathlib.Core.Bool.{Bool, true, false}
use mathlib.Core.List.{List, [], ◌∷◌, ◌++◌, append_assoc, append-nil}
use native.Mathlib.Omega.{arith}
use id_jag_the_hard_way.Base.Lists.{All, is_empty}
use id_jag_the_hard_way.Base.Text.{
  Text, is_space, trim_start, trim_end, trim, split_from, split_spaces, nonempty, words, join,
}

-- A text that holds no white space.
abbrev pub NoSpace : Text → Type 0
NoSpace = All (λ c. is_space c ≡ false)

abbrev pub IsWord : Text → Type 0
IsWord w = (is_empty w ≡ false) × NoSpace w

abbrev pub blank : Text
blank = 32 ∷ []

NoSpace-push : (s : Text) (c : ℕ) → NoSpace s → is_space c ≡ false → NoSpace (s ++ c ∷ [])
NoSpace-push [] c h p = (p, tt)
NoSpace-push (d ∷ s) c h p = (h.0, NoSpace-push s c h.1 p)

split_from-NoSpace : (gap : Bool) (cur s : Text) → NoSpace cur → All NoSpace (split_from gap cur s)
unfolding split_from
split_from-NoSpace true cur [] h = (h, tt)
split_from-NoSpace false cur [] h = (h, tt)
split_from-NoSpace true cur (c ∷ s) h =
    ground (arith, split_from-NoSpace true [] s tt, split_from-NoSpace false (c ∷ []) s)
split_from-NoSpace false cur (c ∷ s) h = ground (
  arith,
  split_from-NoSpace true [] s tt,
  split_from-NoSpace false (cur ++ c ∷ []) s,
  NoSpace-push cur c h,
)

nonempty-IsWord : (xs : List Text) → All NoSpace xs → All IsWord (nonempty xs)
unfolding nonempty
nonempty-IsWord [] h = tt
nonempty-IsWord (x ∷ xs) h = ground (arith, nonempty-IsWord xs h.1)

pub words-IsWord : (s : Text) → All IsWord (words s)
unfolding words split_spaces
words-IsWord s = nonempty-IsWord _ (split_from-NoSpace false [] (trim s) tt)

split_from-append :
    (cur w s : Text) → NoSpace w → split_from false cur (w ++ s) ≡ split_from false (cur ++ w) s
unfolding split_from
split_from-append cur [] s h = rw append-nil
split_from-append cur (c ∷ w) s h = rw h.0 (
    split_from-append (cur ++ c ∷ []) w s h.1
    ∙ ap (λ t. split_from false t s) (append_assoc cur (c ∷ []) w))

-- After a separator a word begins as it does at the start.
split_from-gap :
    (w s : Text) → IsWord w → split_from true [] (w ++ s) ≡ split_from false [] (w ++ s)
unfolding split_from
split_from-gap [] s h = absurd (ground arith)
split_from-gap (c ∷ w) s h = rw h.1.0

join_head : (w : Text) (ws : List Text) → (s : Text) × (join blank (w ∷ ws) ≡ w ++ s)
unfolding join
join_head w [] = ([], sym (append-nil w))
join_head w (v ∷ vs) = (blank ++ join blank (v ∷ vs), refl)

split_from-gap_join :
    (w : Text) (ws : List Text)
    → IsWord w
    → split_from true [] (join blank (w ∷ ws)) ≡ split_from false [] (join blank (w ∷ ws))
split_from-gap_join w ws h = let (s, e) = join_head w ws in rw e (split_from-gap w s h)

split_from-word : (w : Text) → NoSpace w → split_from false [] w ≡ w ∷ []
unfolding split_from
split_from-word w h = ap (split_from false []) (sym (append-nil w)) ∙ split_from-append [] w [] h

split_from-blank :
    (w s : Text) → NoSpace w → split_from false [] (w ++ (blank ++ s)) ≡ w ∷ split_from true [] s
unfolding split_from is_space
split_from-blank w s h = split_from-append [] w (blank ++ s) h

split_spaces-join :
    (w : Text) (ws : List Text)
    → IsWord w
    → All IsWord ws
    → split_from false [] (join blank (w ∷ ws)) ≡ w ∷ ws
unfolding join
split_spaces-join w [] h hs = split_from-word w h.1
split_spaces-join w (v ∷ vs) h hs =
    split_from-blank w (join blank (v ∷ vs)) h.1
    ∙ ap (◌∷◌ w) (split_from-gap_join v vs hs.0 ∙ split_spaces-join v vs hs.0 hs.1)

nonempty_of_IsWord : (ws : List Text) → All IsWord ws → nonempty ws ≡ ws
unfolding nonempty
nonempty_of_IsWord [] h = refl
nonempty_of_IsWord (w ∷ ws) h = rw h.0.0 (ap (◌∷◌ w) (nonempty_of_IsWord ws h.1))

trim_start-append : (w s : Text) → IsWord w → trim_start (w ++ s) ≡ w ++ s
unfolding trim_start
trim_start-append [] s h = absurd (ground arith)
trim_start-append (c ∷ w) s h = rw h.1.0

trim_end_of_NoSpace : (w : Text) → NoSpace w → trim_end w ≡ w
unfolding trim_end
trim_end_of_NoSpace [] h = refl
trim_end_of_NoSpace (c ∷ w) h = rw h.0 (ap (◌∷◌ c) (trim_end_of_NoSpace w h.1))

is_empty-append : (s t : Text) → is_empty t ≡ false → is_empty (s ++ t) ≡ false
is_empty-append [] t h = h
is_empty-append (c ∷ s) t h = refl

-- Trimming stops at a text that is not blank.
trim_end-append : (s t : Text) → trim_end t ≡ t → is_empty t ≡ false → trim_end (s ++ t) ≡ s ++ t
unfolding trim_end
trim_end-append [] t e h = e
trim_end-append (c ∷ s) t e h = ground (arith, trim_end-append s t e h, is_empty-append s t h)

trim_end-join :
    (w : Text) (ws : List Text)
    → IsWord w
    → All IsWord ws
    → (trim_end (join blank (w ∷ ws)) ≡ join blank (w ∷ ws))
      × (is_empty (join blank (w ∷ ws)) ≡ false)
unfolding join
trim_end-join w [] h hs = (trim_end_of_NoSpace w h.1, h.0)
trim_end-join w (v ∷ vs) h hs =
    let (same, some) = trim_end-join v vs hs.0 hs.1 in
    let more = is_empty-append blank (join blank (v ∷ vs)) some in
    (
      trim_end-append w (blank ++ join blank (v ∷ vs)) (trim_end-append blank _ same some) more,
      is_empty-append w (blank ++ join blank (v ∷ vs)) more,
    )

trim-join :
    (w : Text) (ws : List Text)
    → IsWord w
    → All IsWord ws
    → trim (join blank (w ∷ ws)) ≡ join blank (w ∷ ws)
unfolding trim
trim-join w ws h hs =
    let (s, e) = join_head w ws in
    rw (e, trim_start-append w s h) (rw (← e) (trim_end-join w ws h hs).0)

-- Words that are joined by blanks are found again.
pub words-join : (ws : List Text) → All IsWord ws → words (join blank ws) ≡ ws
unfolding words split_spaces
words-join [] h = unfold join trim trim_start trim_end split_from nonempty in refl
words-join (w ∷ ws) h =
    ap (λ t. nonempty (split_from false [] t)) (trim-join w ws h.0 h.1)
    ∙ ap nonempty (split_spaces-join w ws h.0 h.1)
    ∙ nonempty_of_IsWord (w ∷ ws) h

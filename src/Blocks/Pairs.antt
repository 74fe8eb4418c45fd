-- ===== src/Blocks/Pairs.antt =====
-- What the pairs of `diff_blocks` join.
use diecast.Prelude.{
  ◌≡◌, refl, sym, ◌∙◌, ap, true, List, All, OneOf, All-self, All-filter, Text, codes, text_eq,
  text_eq_iff, if◌then◌else◌, ==_iff, arith,
}
use diecast.Blocks.{
  Block, BlockKind, intent, user_story, fr, sc, constraint, scope, directional, open_question,
  evidence, decision, kind_value, Token, named, anonymous, token_eq, Key, section_key, element_key,
  key, key_eq, body_key, diff_indexed,
}
use diecast.Blocks.Matching.{Indexed, enumerate, unused, match_all, lefts, rights}
use diecast.Blocks.Matching.Sound.{match_all-Paired}

abbrev kind_of : Text → BlockKind
kind_of t =
    if text_eq t (codes "intent")
    then intent
    else if text_eq t (codes "user_story")
    then user_story
    else if text_eq t (codes "fr")
    then fr
    else if text_eq t (codes "sc")
    then sc
    else if text_eq t (codes "constraint")
    then constraint
    else if text_eq t (codes "scope")
    then scope
    else if text_eq t (codes "directional")
    then directional
    else if text_eq t (codes "open_question")
    then open_question
    else if text_eq t (codes "evidence")
    then evidence
    else decision

kind_of-kind_value : (k : BlockKind) → kind_of (kind_value k) ≡ k
unfolding kind_value
kind_of-kind_value intent = refl
kind_of-kind_value _ = refl

kind_value-injective : (k l : BlockKind) → kind_value k ≡ kind_value l → k ≡ l
kind_value-injective k l h = sym (kind_of-kind_value k) ∙ ap kind_of h ∙ kind_of-kind_value l

token_eq_sound : (t u : Token) → token_eq t u ≡ true → t ≡ u
unfolding token_eq
token_eq_sound (named a) (named b) h = ap named ((text_eq_iff a b).0 h)
token_eq_sound (anonymous i) (anonymous j) h = ap anonymous ((==_iff i j).0 h)
token_eq_sound (named a) (anonymous j) h = cc
token_eq_sound (anonymous i) (named b) h = cc

key_eq_sound : (j k : Key) → key_eq j k ≡ true → j ≡ k
unfolding key_eq
key_eq_sound (section_key k) (section_key l) h =
    ap section_key (kind_value-injective k l ((text_eq_iff (kind_value k) (kind_value l)).0 h))
key_eq_sound (element_key k t) (element_key l u) h =
    ground (
      arith,
      kind_value-injective k l,
      text_eq_iff (kind_value k) (kind_value l),
      token_eq_sound t u,
    )
key_eq_sound (section_key k) (element_key l u) h = cc
key_eq_sound (element_key k t) (section_key l) h = cc

module _ (old new : List Block) where
  -- A pair of one key that joins a block of the old version, at its position, and one of the new.
  abbrev pub Joins : {K : Type 0} → (Block → K) → Indexed Block × Indexed Block → Type 0
  Joins f p = (f p.0.1 ≡ f p.1.1) × OneOf p.0 (enumerate old) × OneOf p.1 (enumerate new)

  -- An unchanged pair joins an old and a new block whose normalized bodies are equal, and a modified
  -- pair joins an old and a new block of one key, each side at its position in its version.
  pub diff_pairs :
      let d = diff_indexed old new in All (Joins body_key) d.same × All (Joins key) d.changed
  unfolding diff_indexed
  diff_pairs =
      let os = enumerate old in
      let ns = enumerate new in
      let same = match_all text_eq body_key os ns in
      let Old : Indexed Block → Type 0 = λ e. OneOf e os in
      let New : Indexed Block → Type 0 = λ e. OneOf e ns in
      (
        match_all-Paired text_eq body_key (λ j k. (text_eq_iff j k).0) Old New os ns (All-self os)
            (All-self ns),
        match_all-Paired key_eq key key_eq_sound Old New (unused (lefts same) os)
            (unused (rights same) ns) (All-filter Old _ os (All-self os))
            (All-filter New _ ns (All-self ns)),
      )

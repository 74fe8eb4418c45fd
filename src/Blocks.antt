-- ===== src/Blocks.antt =====
-- requirements_render/blocks.py and block_diff.py: the block model of a requirements document, and
-- the change set between two versions. Python's `id(block)` is the field `identity`.
pub mod Matching
pub mod Pairs
pub mod Partition
mod Tests
use diecast.Prelude.{
  ℕ, suc, ◌-◌, Bool, true, false, not, ◌&&◌, Option, none, some, List, [], ◌∷◌, ◌++◌, Text, codes,
  text_eq, leb, ◌==◌, length, take, map, if◌then◌else◌, is_space, rstrip_chars, split_on, join,
  split_words, any, filter,
}
use diecast.Blocks.Matching.{Indexed, enumerate, match_all, unused, lefts, rights}

pub data BlockKind : Type 0 where
  intent user_story fr sc constraint scope directional open_question evidence decision : BlockKind

pub record Block : Type 0 where
  pub kind : BlockKind
  pub level : ℕ
  pub body : Text
  pub heading : Option Text
  pub ref : Option Text
  pub line_start : ℕ
  pub line_end : ℕ
  pub identity : ℕ

-- `BlockKind.value`
unfoldable pub kind_value : BlockKind → Text
kind_value intent = codes "intent"
kind_value user_story = codes "user_story"
kind_value fr = codes "fr"
kind_value sc = codes "sc"
kind_value constraint = codes "constraint"
kind_value scope = codes "scope"
kind_value directional = codes "directional"
kind_value open_question = codes "open_question"
kind_value evidence = codes "evidence"
kind_value decision = codes "decision"

unfoldable pub normalize_body : Text → Text
unfolding rstrip_chars split_on join is_space
normalize_body body =
    rstrip_chars (λ c. c == 10) (join (10 ∷ []) (map (rstrip_chars is_space) (split_on 10 body)))

-- The tuples `("L1", kind)` and `("L2", kind, token)`, where the token is a text or an identity.
pub data Token : Type 0 where
  named : Text → Token
  anonymous : ℕ → Token

pub data Key : Type 0 where
  section_key : BlockKind → Key
  element_key : BlockKind → Token → Key

abbrev token : Option Text → Option Text → ℕ → Token
token (some ref) heading i = named ref
token none (some heading) i = named heading
token none none i = anonymous i

unfoldable pub key : Block → Key
key b =
    if b.level == 1
    then section_key b.kind
    else element_key b.kind (token b.ref b.heading b.identity)

unfoldable pub token_eq : Token → Token → Bool
token_eq (named a) (named b) = text_eq a b
token_eq (anonymous i) (anonymous j) = i == j
token_eq _ _ = false

unfoldable pub key_eq : Key → Key → Bool
unfolding token_eq kind_value
key_eq (section_key k) (section_key l) = text_eq (kind_value k) (kind_value l)
key_eq (element_key k t) (element_key l u) = text_eq (kind_value k) (kind_value l) && token_eq t u
key_eq _ _ = false

pub record ModifiedBlock : Type 0 where
  pub old : Block
  pub new : Block

pub record BlockDiff : Type 0 where
  pub added : List Block
  pub removed : List Block
  pub modified : List ModifiedBlock
  pub unchanged : List ModifiedBlock

-- The pairs of the two passes, and the two remainders, with the positions.
pub record IndexedDiff : Type 0 where
  pub same : List (Indexed Block × Indexed Block)
  pub changed : List (Indexed Block × Indexed Block)
  pub gone : List (Indexed Block)
  pub fresh : List (Indexed Block)

abbrev body_key : Block → Text
body_key b = normalize_body b.body

unfoldable pub diff_indexed : List Block → List Block → IndexedDiff
unfolding match_all normalize_body key key_eq
diff_indexed old new =
    let os = enumerate old in
    let ns = enumerate new in
    let same = match_all text_eq body_key os ns in
    let changed = match_all key_eq key (unused (lefts same) os) (unused (rights same) ns) in
    record {
      same = same;
      changed = changed;
      gone = unused (lefts same ++ lefts changed) os;
      fresh = unused (rights same ++ rights changed) ns;
    }

abbrev modified_block : Indexed Block × Indexed Block → ModifiedBlock
modified_block (o, n) = record { old = o.1; new = n.1 }

abbrev value : Indexed Block → Block
value e = e.1

unfoldable pub diff_blocks : List Block → List Block → BlockDiff
unfolding diff_indexed
diff_blocks old new =
    let d = diff_indexed old new in
    record {
      added = map value d.fresh;
      removed = map value d.gone;
      modified = map modified_block d.changed;
      unchanged = map modified_block d.same;
    }

-- The change summary
pub record Item : Type 0 where
  pub change : Text
  pub kind : Text
  pub heading_or_ref : Text
  pub excerpt : Text

pub record Counts : Type 0 where
  pub added : ℕ
  pub modified : ℕ
  pub removed : ℕ
  pub unchanged : ℕ

pub record Summary : Type 0 where
  pub counts : Counts
  pub items : List Item

unfoldable pub excerpt : Text → Text
unfolding normalize_body split_words join rstrip_chars is_space
excerpt body =
    let flat = join (codes " ") (split_words (normalize_body body)) in
    if leb (length flat) 80 then flat else rstrip_chars is_space (take 79 flat) ++ 8230 ∷ []

abbrev label : Option Text → Option Text → Text → Text
label (some ref) heading body = ref
label none (some heading) body = heading
label none none body = excerpt body

unfoldable pub heading_or_ref : Block → Text
unfolding excerpt
heading_or_ref b = label b.ref b.heading b.body

unfoldable pub item : Text → Block → Item
unfolding heading_or_ref kind_value
item change b = record {
  change = change;
  kind = kind_value b.kind;
  heading_or_ref = heading_or_ref b;
  excerpt = excerpt b.body;
}

abbrev new_block : ModifiedBlock → Block
new_block m = m.new

unfoldable pub summarize : BlockDiff → Summary
unfolding item
summarize diff = record {
  counts = record {
    added = length diff.added;
    modified = length diff.modified;
    removed = length diff.removed;
    unchanged = length diff.unchanged;
  };
  items =
      map (item (codes "added")) diff.added
      ++ (map (item (codes "modified")) (map new_block diff.modified)
          ++ map (item (codes "removed")) diff.removed);
}

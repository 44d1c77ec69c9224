-- ===== src/Lexer/Dictionary.antt =====
-- The words that the lexer (src/core/fpsan_lexer.h) starts with, and the dictionary file.
use Prim.Native.String.{String}
use engram_core.Prelude.{
  ℕ, zero, suc, List, [], ◌∷◌, ◌++◌, map, length, Bool, ◌||◌, Option, none, some, ◌==◌,
  if◌then◌else◌, Text, codes, same_text,
}
use engram_core.Lexer.{
  Lexicon, init_lexicon, insert, pos_unknown, pos_noun, pos_verb, pos_adj, pos_det, pos_adv,
  pos_pron, pos_punct, pos_aux,
}

abbrev pub pos_prep : ℕ
pos_prep = 5

abbrev pub pos_conj : ℕ
pos_conj = 8

abbrev pub pos_code : ℕ
pos_code = 11

-- Words in the order in which they are inserted.
unfoldable pub insert_all : List (Text × ℕ) → Lexicon → Lexicon
insert_all [] l = l
insert_all ((word, tag) ∷ words) l = insert_all words (insert word tag l)

abbrev tagged : ℕ → List String → List (Text × ℕ)
tagged tag words = map (λ w. (codes w, tag)) words

abbrev dets : List String
dets =
    "the" ∷ "a" ∷ "an" ∷ "this" ∷ "that" ∷ "these" ∷ "those" ∷ "my" ∷ "your" ∷ "his" ∷ "her" ∷ "its"
    ∷ "our" ∷ "their" ∷ "some" ∷ "any" ∷ "no" ∷ "every" ∷ "each" ∷ "all" ∷ "both" ∷ "few" ∷ "many"
    ∷ "much" ∷ "several" ∷ []

abbrev preps : List String
preps =
    "in" ∷ "on" ∷ "at" ∷ "to" ∷ "for" ∷ "with" ∷ "by" ∷ "from" ∷ "of" ∷ "about" ∷ "into" ∷ "through"
    ∷ "during" ∷ "before" ∷ "after" ∷ "above" ∷ "below" ∷ "between" ∷ "under" ∷ "over" ∷ "near"
    ∷ "around" ∷ "against" ∷ "upon" ∷ "within" ∷ "without" ∷ "along" ∷ "across" ∷ "behind"
    ∷ "beyond" ∷ []

abbrev prons : List String
prons =
    "i" ∷ "you" ∷ "he" ∷ "she" ∷ "it" ∷ "we" ∷ "they" ∷ "me" ∷ "him" ∷ "us" ∷ "them" ∷ "who"
    ∷ "what" ∷ "which" ∷ "whom" ∷ "whose" ∷ []

abbrev conjs : List String
conjs =
    "and" ∷ "or" ∷ "but" ∷ "nor" ∷ "yet" ∷ "so" ∷ "because" ∷ "although" ∷ "while" ∷ "if" ∷ "when"
    ∷ "than" ∷ "that" ∷ "whether" ∷ []

abbrev auxs : List String
auxs =
    "is" ∷ "am" ∷ "are" ∷ "was" ∷ "were" ∷ "be" ∷ "been" ∷ "being" ∷ "have" ∷ "has" ∷ "had" ∷ "do"
    ∷ "does" ∷ "did" ∷ "will" ∷ "would" ∷ "shall" ∷ "should" ∷ "may" ∷ "might" ∷ "can" ∷ "could"
    ∷ "must" ∷ []

abbrev advs : List String
advs =
    "not" ∷ "very" ∷ "also" ∷ "often" ∷ "never" ∷ "always" ∷ "sometimes" ∷ "usually" ∷ "just"
    ∷ "already" ∷ "still" ∷ "even" ∷ "now" ∷ "then" ∷ "here" ∷ "there" ∷ "where" ∷ "how" ∷ "why"
    ∷ "when" ∷ []

abbrev verbs : List String
verbs =
    "run" ∷ "walk" ∷ "eat" ∷ "drink" ∷ "sleep" ∷ "fly" ∷ "swim" ∷ "jump" ∷ "sit" ∷ "stand" ∷ "go"
    ∷ "come" ∷ "make" ∷ "take" ∷ "give" ∷ "get" ∷ "know" ∷ "think" ∷ "say" ∷ "tell" ∷ "see" ∷ "hear"
    ∷ "feel" ∷ "find" ∷ "want" ∷ "need" ∷ "use" ∷ "try" ∷ "ask" ∷ "work" ∷ "call" ∷ "move" ∷ "live"
    ∷ "play" ∷ "turn" ∷ "put" ∷ "keep" ∷ "let" ∷ "begin" ∷ "show" ∷ "seem" ∷ "help" ∷ "talk"
    ∷ "read" ∷ "write" ∷ "learn" ∷ "grow" ∷ "open" ∷ "close" ∷ "stop" ∷ "start" ∷ "kill" ∷ "die"
    ∷ "cause" ∷ "causes" ∷ "requires" ∷ "monitors" ∷ "protects" ∷ "operates" ∷ "destroys"
    ∷ "violates" ∷ "compiles" ∷ "creates" ∷ "reads" ∷ "metamorph" ∷ []

abbrev adjs : List String
adjs =
    "big" ∷ "small" ∷ "large" ∷ "little" ∷ "long" ∷ "short" ∷ "old" ∷ "new" ∷ "good" ∷ "bad"
    ∷ "great" ∷ "high" ∷ "low" ∷ "young" ∷ "hot" ∷ "cold" ∷ "fast" ∷ "slow" ∷ "hard" ∷ "soft"
    ∷ "strong" ∷ "weak" ∷ "dark" ∷ "light" ∷ "red" ∷ "blue" ∷ "green" ∷ "black" ∷ "white" ∷ "true"
    ∷ "false" ∷ "happy" ∷ "sad" ∷ "angry" ∷ "beautiful" ∷ "ugly" ∷ "smart" ∷ "dumb" ∷ []

abbrev nouns : List String
nouns =
    "dog" ∷ "cat" ∷ "bird" ∷ "fish" ∷ "eagle" ∷ "snake" ∷ "horse" ∷ "lion" ∷ "tree" ∷ "flower"
    ∷ "water" ∷ "fire" ∷ "air" ∷ "earth" ∷ "sun" ∷ "moon" ∷ "man" ∷ "woman" ∷ "child" ∷ "person"
    ∷ "people" ∷ "house" ∷ "car" ∷ "book" ∷ "food" ∷ "time" ∷ "day" ∷ "night" ∷ "year" ∷ "world"
    ∷ "city" ∷ "hand" ∷ "head" ∷ "eye" ∷ "heart" ∷ "mind" ∷ "body" ∷ "life" ∷ "death" ∷ "king"
    ∷ "queen" ∷ "way" ∷ "thing" ∷ "place" ∷ "part" ∷ "word" ∷ "name" ∷ "wing" ∷ "tail" ∷ "nest"
    ∷ "sky" ∷ "ocean" ∷ "river" ∷ "mountain" ∷ "animal" ∷ "plant" ∷ "rock" ∷ "metal" ∷ "glass"
    ∷ "wood" ∷ "paper" ∷ []

abbrev code_words : List String
code_words = "function" ∷ "variable" ∷ "loop" ∷ "print" ∷ "returns" ∷ "takes" ∷ []

unfoldable pub core_words : List (Text × ℕ)
core_words =
    tagged pos_det dets
    ++ (tagged pos_prep preps
        ++ (tagged pos_pron prons
            ++ (tagged pos_conj conjs
                ++ (tagged pos_aux auxs
                    ++ (tagged pos_adv advs
                        ++ (tagged pos_verb verbs
                            ++ (tagged pos_adj adjs
                                ++ (tagged pos_noun nouns ++ (tagged pos_code code_words)))))))))

unfoldable pub bootstrap_core : Lexicon → Lexicon
bootstrap_core l = insert_all core_words l

-- `NativeLexer::init`, with the default pool.
unfoldable pub init : Lexicon
init = bootstrap_core (init_lexicon 200000)

-- The text before the first byte `b`, as `strchr` and a terminator there leave it.
unfoldable pub before : ℕ → Text → Text
before b [] = []
before b (c ∷ s) = let rest = before b s in if c == b then [] else c ∷ rest

-- The text after the first byte `b`.
unfoldable pub after : ℕ → Text → Option Text
after b [] = none
after b (c ∷ s) = let rest = after b s in if c == b then some s else rest

abbrev is_text : Text → String → Bool
is_text t s = same_text t (codes s)

unfoldable pub tag_of_text : Text → ℕ
tag_of_text t =
    if is_text t "NOUN"
    then pos_noun
    else if is_text t "VERB"
    then pos_verb
    else if is_text t "ADJ"
    then pos_adj
    else if is_text t "DET"
    then pos_det
    else if is_text t "PREP" || is_text t "ADP"
    then pos_prep
    else if is_text t "ADV"
    then pos_adv
    else if is_text t "PRON"
    then pos_pron
    else if is_text t "CONJ" || (is_text t "CCONJ" || is_text t "SCONJ")
    then pos_conj
    else if is_text t "AUX"
    then pos_aux
    else if is_text t "PUNCT"
    then pos_punct
    else pos_unknown

-- The entry of a line: none where it has no comma or no known tag.
unfoldable pub parse_line : Text → Option (Text × ℕ)
parse_line line = elim (after b',' line) [
  | none ↦ none
  | some rest ↦
      let tag = tag_of_text (before b'\r' (before b'\n' rest)) in
      if tag == pos_unknown then none else some (before b',' line, tag)
]

-- `fgets` with room for `room` bytes: the line with its end, and what is left.
unfoldable pub fgets : ℕ → Text → Text × Text
fgets zero file = ([], file)
fgets (suc room) [] = ([], [])
fgets (suc room) (c ∷ file) =
    let (line, left) = fgets room file in if c == b'\n' then (c ∷ [], file) else (c ∷ line, left)

-- The entries of the file; each round reads a byte at least.
unfoldable pub entries : ℕ → Text → List (Text × ℕ)
entries zero file = []
entries (suc rounds) file =
    let (line, left) = fgets 255 file in
    let rest = entries rounds left in
    elim line [
      | [] ↦ []
      | c ∷ more ↦ elim (parse_line (c ∷ more)) [ none ↦ rest | some entry ↦ entry ∷ rest ]
    ]

-- `load_dictionary` of a file that can be opened, with its answer.
unfoldable pub load_dictionary : Text → Lexicon → Lexicon × ℕ
load_dictionary file l =
    let loaded = entries (length file) file in (insert_all loaded l, length loaded)

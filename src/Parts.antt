-- ===== src/Parts.antt =====
-- _parts.py: what the framework reads of a message's parts. Decoding base64 is an argument.
use Prim.Native.String.{◌++◌ as ◌&◌}
use a2akit.Prelude.{String, Option, none, some, List, [], ◌∷◌}
use a2akit.Wire.{Part}

pub data Kind : Type 0 where
  text raw url data_part empty : Kind

-- The first field that is set decides.
unfoldable pub part_kind : Part → Kind
part_kind p = elim p.text [
  | some s ↦ text
  | none ↦ elim p.raw [
    | some s ↦ raw
    | none ↦ elim p.url [ some s ↦ url | none ↦ elim p.value [ some s ↦ data_part | none ↦ empty ] ]
  ]
]

-- The texts that are set, in order.
abbrev pub texts_of : List Part → List String
texts_of [] = []
texts_of (p ∷ ps) = elim p.text [ none ↦ texts_of ps | some s ↦ s ∷ texts_of ps ]

-- sep.join(texts)
abbrev pub join : String → List String → String
join sep [] = ""
join sep (s ∷ []) = s
join sep (s ∷ (t ∷ ts)) = s & (sep & join sep (t ∷ ts))

unfoldable pub extract_text : List Part → String
extract_text ps = join "\n" (texts_of ps)

-- `FileInfo`: the bytes as the text that they decode from, which base64 is an argument for.
pub record FileInfo : Type 0 where
  pub content : Option String
  pub url : Option String
  pub filename : Option String
  pub media_type : Option String

abbrev file_of : (String → String) → Part → Option FileInfo
file_of b64decode p = elim p.raw [
  | some s ↦ some (record {
    content = some (b64decode s);
    url = none;
    filename = p.filename;
    media_type = p.media_type;
  })
  | none ↦ elim p.url [
    | some u ↦
        some (record {
          content = none;
          url = some u;
          filename = p.filename;
          media_type = p.media_type;
        })
    | none ↦ none
  ]
]

-- A raw part comes before its URL.
unfoldable pub extract_files : (String → String) → List Part → List FileInfo
extract_files b64decode [] = []
extract_files b64decode (p ∷ ps) =
    let rest = extract_files b64decode ps in
    elim (file_of b64decode p) [ none ↦ rest | some f ↦ f ∷ rest ]

unfoldable pub extract_data : List Part → List String
extract_data [] = []
extract_data (p ∷ ps) =
    let rest = extract_data ps in elim p.value [ none ↦ rest | some v ↦ v ∷ rest ]

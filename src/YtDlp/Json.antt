-- ===== src/YtDlp/Json.antt =====
-- `serde_json::Value`, as src/yt_dlp.rs reads it: a missing key is `null`.
use x_videos_dowloads.Prelude.{
  ℕ, String, Bool, Option, none, some, if◌then◌else◌, str_eq, List, [], ◌∷◌,
}

mutual
  pub data Json : Type 0 where
    null : Json
    boolean : Bool → Json
    -- A number that is a `u64`, and any other.
    number : ℕ → Json
    real : ℕ → Json
    text : String → Json
    array : Items → Json
    object : Members → Json

  pub data Items : Type 0 where
    no_items : Items
    item : Json → Items → Items

  pub data Members : Type 0 where
    no_members : Members
    member : (key : String) → Json → Members → Members

abbrev pub as_str : Json → Option String
as_str (text s) = some s
as_str _ = none

abbrev pub as_u64 : Json → Option ℕ
as_u64 (number n) = some n
as_u64 _ = none

abbrev pub to_list : Items → List Json
to_list no_items = []
to_list (item j items) = j ∷ to_list items

abbrev pub as_array : Json → List Json
as_array (array items) = to_list items
as_array _ = []

-- The keys of an object are distinct.
abbrev pub value_of : String → Members → Json
value_of key no_members = null
value_of key (member k j members) =
    let later = value_of key members in if str_eq k key then j else later

-- `json[key]`
abbrev pub at_key : String → Json → Json
at_key key (object members) = value_of key members
at_key key _ = null

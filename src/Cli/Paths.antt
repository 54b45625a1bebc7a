-- ===== src/Cli/Paths.antt =====
-- src/main.rs: the directory and the name of the output. The file system is a parameter, and a path
-- is its text.
use Prim.Native.String.{◌++◌ as str_append}
use x_videos_dowloads.Prelude.{
  String, Bool, false, not, ◌&&◌, ◌||◌, List, [], ◌∷◌, Option, none, some, Result, ok, err, str_eq,
  any, is_empty, if◌then◌else◌,
}
use x_videos_dowloads.Prelude.Text.{split_at, last}

pub record FileSystem : Type 0 where
  pub is_absolute : String → Bool
  pub canonicalize : String → Option String
  pub exists : String → Bool
  pub is_dir : String → Bool
  pub parent : String → Option String
  -- Whether `create_dir_all` succeeds.
  pub creates : String → Bool

-- `path == PathBuf::from(".")`, which compares components.
abbrev pub is_here : List String → Bool
is_here [] = false
is_here (first ∷ rest) =
    str_eq first "." && not (any (λ part. not (str_eq part "" || str_eq part ".")) rest)

-- `cli.output`, or the default in its place.
abbrev pub chosen_dir : (output default_dir : String) → String
chosen_dir output default_dir = if is_here (split_at b'/' output) then default_dir else output

-- `PathBuf::join` of a name that is not absolute.
abbrev pub ends_with_slash : List String → Bool
ends_with_slash parts = elim (last parts) [ none ↦ false | some part ↦ is_empty part ]

abbrev pub join : (dir name : String) → String
join dir name =
    if is_empty dir || ends_with_slash (split_at b'/' dir)
    then str_append dir name
    else str_append dir (str_append "/" name)

abbrev pub checked_parent : FileSystem → String → Option String → Result String
checked_parent fs absolute none = ok absolute
checked_parent fs absolute (some parent) =
    if not (fs.exists parent) && not (is_empty parent) then err "父目录不存在" else ok absolute

abbrev pub checked : FileSystem → Option String → Result String
checked fs none = err "无法将路径转换为绝对路径"
checked fs (some absolute) =
    if not (fs.exists absolute)
    then checked_parent fs absolute (fs.parent absolute)
    else if not (fs.is_dir absolute)
    then err "输出路径不是目录"
    else ok absolute

-- `validate_output_dir`
unfoldable pub validate_output_dir : FileSystem → String → Result String
validate_output_dir fs dir =
    checked fs (if fs.is_absolute dir then some dir else fs.canonicalize dir)

-- The directory that a download writes to, once it exists.
unfoldable pub ready_dir : FileSystem → String → Result String
unfolding validate_output_dir
ready_dir fs dir = elim (validate_output_dir fs dir) [
  | err e ↦ err e
  | ok absolute ↦ if fs.creates absolute then ok absolute else err "io"
]

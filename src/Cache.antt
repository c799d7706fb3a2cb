-- ===== src/Cache.antt =====
-- cache.h and cache.cc: the header cache of a group. A pointer that owns its object is the object;
-- a vector or a list is a List; a std::map or multimap is a List in the order of its keys. A
-- c_group_info is its group name. Each call reads the clock once, as its argument `now`.
pub mod Order
pub mod Parts
pub mod MidInfo
pub mod Additem
pub mod HaveMap
pub mod Writer
pub mod Reader
pub mod Load
pub mod Subject
pub mod Merge
pub mod Flush
pub mod Missing
mod Tests
use nget.Prelude.{ℕ, ℤ, pos, ltb_ℤ, leb_ℤ, eqb_ℤ, List, Bool, Text, ulong_max, if◌then◌else◌, ◌&&◌}

-- c_nntp_file_base
pub record FileBase : Type 0 where
  pub req : ℤ
  pub partoff : ℤ
  pub author : Text
  pub subject : Text
  pub references : List Text

-- c_nntp_header
pub record Header : Type 0 where
  pub base : FileBase
  pub open base use *
  pub serverid : ℕ
  pub group : Text
  pub partnum : ℤ
  pub tailoff : ℤ
  pub articlenum : ℕ
  pub date : ℕ
  pub bytes : ℕ
  pub lines : ℕ
  pub messageid : Text

-- c_nntp_server_article
pub record ServerArticle : Type 0 where
  pub serverid : ℕ
  pub group : Text
  pub articlenum : ℕ
  pub bytes : ℕ
  pub lines : ℕ

-- c_nntp_part
pub record Part : Type 0 where
  pub partnum : ℤ
  pub articles : List ServerArticle
  pub date : ℕ
  pub messageid : Text

-- c_nntp_file
pub record NntpFile : Type 0 where
  pub base : FileBase
  pub open base use *
  pub parts : List Part
  pub have : ℤ
  pub flags : ℕ
  pub tailoff : ℤ
  pub update : ℕ

-- c_nntp_server_info
pub record ServerInfo : Type 0 where
  pub serverid : ℕ
  pub high : ℕ
  pub low : ℕ
  pub num : ℕ

-- c_nntp_server_info(ulong sid), by reset()
unfoldable pub new_server_info : ℕ → ServerInfo
new_server_info sid = record { serverid = sid; high = 0; low = ulong_max; num = 0 }

-- Whether a part counts among the parts that its file has.
unfoldable pub count_partnum : ℤ → ℤ → Bool
count_partnum partnum req =
    if ltb_ℤ (pos 0) req then ltb_ℤ (pos 0) partnum && leb_ℤ partnum req else eqb_ℤ partnum req

-- the fields of c_nntp_cache that its methods change
pub record NntpCache : Type 0 where
  pub files : List NntpFile
  pub totalnum : ℕ
  pub server_info : List ServerInfo
  pub saveit : Bool

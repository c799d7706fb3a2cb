-- ===== src/Cache/Additem.antt =====
-- c_nntp_cache::additem and what it calls.
pub mod Weight
pub mod Articles
pub mod FileOk
pub mod Invariant
use nget.Prelude.{
  ℕ, ◌+◌, ℤ, pos, ◌+ℤ◌, List, [], ◌∷◌, ◌++◌, Option, some, none, Bool, true, false, ◌==◌, ltb,
  if◌then◌else◌, Text, eq_text, add_ulong,
}
use nget.Cache.{
  FileBase, Header, ServerArticle, Part, NntpFile, ServerInfo, NntpCache, count_partnum,
  new_server_info,
}
use nget.Cache.Order.{base_lt}
use nget.Cache.Parts.{part, addpart, set_part}

unfoldable pub article_of : Header → ServerArticle
article_of h = record {
  serverid = h.serverid;
  group = h.group;
  articlenum = h.articlenum;
  bytes = h.bytes;
  lines = h.lines;
}

-- c_nntp_part::addserverarticle
unfoldable pub addserverarticle : Header → Part → Part
unfolding article_of
addserverarticle h p = record p { articles = p.articles ++ article_of h ∷ [] }

-- c_nntp_part(c_nntp_header *h)
unfoldable pub part_of : Header → Part
unfolding addserverarticle
part_of h =
    addserverarticle h
      (record { partnum = h.partnum; articles = []; date = h.date; messageid = h.messageid })

-- c_nntp_file::addpart and addnewpart
unfoldable pub add_part : Part → NntpFile → NntpFile
unfolding addpart count_partnum
add_part p f = record f {
  parts = addpart p f.parts;
  have = if count_partnum p.partnum f.req then f.have +ℤ pos 1 else f.have;
}

unfoldable pub add_new_part : ℕ → Part → NntpFile → NntpFile
unfolding add_part
add_new_part now p f = record (add_part p f) { update = now }

-- c_nntp_file(c_nntp_header *h)
unfoldable pub file_of : Header → NntpFile
file_of h = record {
  base = h.base;
  parts = [];
  have = pos 0;
  flags = 0;
  tailoff = h.tailoff;
  update = 0;
}

-- getserverinfo, and a change of what it points to; the map is in the order of the ids
unfoldable pub with_server_info : ℕ → (ServerInfo → ServerInfo) → List ServerInfo → List ServerInfo
unfolding new_server_info
with_server_info sid g [] = g (new_server_info sid) ∷ []
with_server_info sid g (i ∷ is) =
    if i.serverid == sid
    then g i ∷ is
    else if ltb sid i.serverid
    then g (new_server_info sid) ∷ i ∷ is
    else i ∷ with_server_info sid g is

unfoldable pub note_article : ℕ → ServerInfo → ServerInfo
note_article n i = record i {
  high = if ltb i.high n then n else i.high;
  low = if ltb n i.low then n else i.low;
  num = add_ulong i.num 1;
}

-- files.equal_range(h): the files before it, in it and behind it
unfoldable pub before_range : FileBase → List NntpFile → List NntpFile
unfolding base_lt
before_range b [] = []
before_range b (f ∷ fs) = if base_lt f.base b then f ∷ before_range b fs else []

unfoldable pub from_range : FileBase → List NntpFile → List NntpFile
unfolding base_lt
from_range b [] = []
from_range b (f ∷ fs) = if base_lt f.base b then from_range b fs else f ∷ fs

unfoldable pub in_range : FileBase → List NntpFile → List NntpFile
unfolding base_lt
in_range b [] = []
in_range b (f ∷ fs) = if base_lt b f.base then [] else f ∷ in_range b fs

unfoldable pub after_range : FileBase → List NntpFile → List NntpFile
unfolding base_lt
after_range b [] = []
after_range b (f ∷ fs) = if base_lt b f.base then f ∷ fs else after_range b fs

-- A pass of the loop: the file takes the article, with a new part or not, or the loop goes on.
pub data Offer : Type 0 where
  taken : NntpFile → Bool → Offer
  refused : Offer

unfoldable pub offer : Header → ℕ → NntpFile → Option Part → Offer
unfolding add_new_part part_of set_part addserverarticle eq_text
offer h now f none = taken (add_new_part now (part_of h) f) true
offer h now f (some p) =
    if eq_text p.messageid h.messageid
    then taken (record f { parts = set_part h.partnum (addserverarticle h p) f.parts }) false
    else refused

or_next :
    NntpFile → List NntpFile → Offer → Option (List NntpFile × Bool) → Option (List NntpFile × Bool)
or_next f fs (taken f' b) rest = some (f' ∷ fs, b)
or_next f fs refused none = none
or_next f fs refused (some (fs', b)) = some (f ∷ fs', b)

unfoldable pub add_to_range : Header → ℕ → List NntpFile → Option (List NntpFile × Bool)
unfolding or_next offer part
add_to_range h now [] = none
add_to_range h now (f ∷ fs) =
    or_next f fs (offer h now f (part h.partnum f.parts)) (add_to_range h now fs)

-- A new file goes to the end of its range.
added_to_range :
    Header → ℕ → List NntpFile → Option (List NntpFile × Bool) → List NntpFile × Bool × ℕ
unfolding add_new_part part_of file_of
added_to_range h now fs none = (fs ++ add_new_part now (part_of h) (file_of h) ∷ [], true, 1)
added_to_range h now fs (some (fs', b)) = (fs', b, 0)

-- The second result is what the function returns: 1 for a new file.
unfoldable pub additem : Header → ℕ → NntpCache → NntpCache × ℕ
unfolding added_to_range add_to_range before_range from_range in_range after_range with_server_info
    note_article
additem h now c =
    let fs = from_range h.base c.files in
    let (range, is_new_part, result) =
      added_to_range h now (in_range h.base fs) (add_to_range h now (in_range h.base fs)) in
    (
      record {
        files = before_range h.base c.files ++ (range ++ after_range h.base fs);
        totalnum = if is_new_part then add_ulong c.totalnum 1 else c.totalnum;
        server_info = with_server_info h.serverid (note_article h.articlenum) c.server_info;
        saveit = true;
      },
      result,
    )

-- ===== src/Cache/Merge.antt =====
-- c_nntp_file::mergefile: moves the parts of another file into a file.
pub mod Laws
use nget.Prelude.{ℕ, ℤ, ltb, not, List, [], ◌∷◌, ◌++◌, Option, some, none, if◌then◌else◌, eq_text}
use nget.Cache.{ServerArticle, Part, NntpFile}
use nget.Cache.Parts.{part, set_part}
use nget.Cache.Additem.{add_part}

unfoldable pub with_articles : List ServerArticle → Part → Part
with_articles xs p = record p { articles = p.articles ++ xs }

-- the articles are pushed behind those of the part that `mp` points to
unfoldable pub push_articles : ℤ → List ServerArticle → Option Part → NntpFile → NntpFile
unfolding with_articles set_part
push_articles n xs none f = f
push_articles n xs (some mp) f = record f { parts = set_part n (with_articles xs mp) f.parts }

abbrev pub without_articles : Part → Part
without_articles p = record {
  partnum = p.partnum;
  articles = [];
  date = p.date;
  messageid = p.messageid;
}

-- a pass of the loop, for a part of the other file and what parts.part() finds for its number: the
-- parts that stay in the other file, and the file
unfoldable pub merge_part : Part → Option Part → List Part × NntpFile → List Part × NntpFile
unfolding push_articles add_part part
merge_part p none (left, f) =
    let f' = add_part (without_articles p) f in
    (left, push_articles p.partnum p.articles (part p.partnum f'.parts) f')
merge_part p (some mp) (left, f) =
    if not (eq_text mp.messageid p.messageid)
    then (left ++ p ∷ [], f)
    else (left, push_articles p.partnum p.articles (some mp) f)

unfoldable pub merge_parts : List Part → List Part × NntpFile → List Part × NntpFile
unfolding merge_part
merge_parts [] s = s
merge_parts (p ∷ ps) s = merge_parts ps (merge_part p (part p.partnum s.1.parts) s)

-- mergefile(f): what is left of the other file, and the file
unfoldable pub mergefile : NntpFile → NntpFile → NntpFile × NntpFile
unfolding merge_parts
mergefile other f =
    let (left, merged) =
      merge_parts other.parts
        ([], record f { update = if ltb f.update other.update then other.update else f.update }) in
    (record other { parts = left }, merged)

-- ===== src/Cache/Missing.antt =====
-- c_nntp_cache::getxrange: the numbers of a range that the cache does not hold.
use nget.Prelude.{
  ℕ, ◌≤◌, ◌==◌, ltb, ◌≡◌, refl, List, [], ◌∷◌, Bool, Bool-cases, inl, inr, false, not, ◌&&◌, ◌||◌,
  if◌then◌else◌, arith, ulong_max,
}
use nget.Nrange.{Rlist, insert, remove_one}
use nget.Nrange.Members.{mem, within, IsValid}
use nget.Nrange.InsertRange.{insert-mem, insert-IsValid}
use nget.Nrange.Remove.{remove_one-mem, remove_one-IsValid}
use nget.Cache.{ServerArticle, Part, NntpFile, ServerInfo}

remove_articles : ℕ → List ServerArticle → Rlist → Rlist
unfolding remove_one
remove_articles sid [] r = r
remove_articles sid (a ∷ more) r =
    remove_articles sid more (if a.serverid == sid then remove_one a.articlenum r else r)

remove_parts : ℕ → List Part → Rlist → Rlist
unfolding remove_articles
remove_parts sid [] r = r
remove_parts sid (p ∷ ps) r = remove_parts sid ps (remove_articles sid p.articles r)

remove_files : ℕ → List NntpFile → Rlist → Rlist
unfolding remove_parts
remove_files sid [] r = r
remove_files sid (f ∷ fs) r = remove_files sid fs (remove_parts sid f.parts r)

-- getxrange(servinfo, range), and with the bounds of the range
unfoldable pub getxrange : ServerInfo → List NntpFile → Rlist → Rlist
unfolding remove_files
getxrange info fs r = remove_files info.serverid fs r

unfoldable pub getxrange_between : ServerInfo → ℕ → ℕ → List NntpFile → Rlist
unfolding getxrange insert
getxrange_between info newlow newhigh fs =
    getxrange info fs (insert (if ltb newlow info.low then newlow else info.low) newhigh [])

-- whether an article of the server with this number is in the files
article_holds : ℕ → ℕ → List ServerArticle → Bool
article_holds sid n [] = false
article_holds sid n (a ∷ more) =
    (a.serverid == sid && n == a.articlenum) || article_holds sid n more

part_holds : ℕ → ℕ → List Part → Bool
unfolding article_holds
part_holds sid n [] = false
part_holds sid n (p ∷ ps) = article_holds sid n p.articles || part_holds sid n ps

unfoldable pub holds : ℕ → ℕ → List NntpFile → Bool
unfolding part_holds
holds sid n [] = false
holds sid n (f ∷ fs) = part_holds sid n f.parts || holds sid n fs

module _ (sid n : ℕ) where
  remove_articles-mem :
      (xs : List ServerArticle) (r : Rlist)
      → IsValid r
      → IsValid (remove_articles sid xs r)
        × (mem n (remove_articles sid xs r) ≡ (mem n r && not (article_holds sid n xs)))
  unfolding remove_articles article_holds
  remove_articles-mem [] r v = (v, ground arith)
  remove_articles-mem (a ∷ more) r v = elim (Bool-cases (a.serverid == sid)) [
    | inl e ↦ rw e (
        let (valid, same) =
          remove_articles-mem more (remove_one a.articlenum r)
            (remove_one-IsValid a.articlenum r v) in
        (valid, ground (arith, same, remove_one-mem a.articlenum n r v)))
    | inr e ↦ rw e (remove_articles-mem more r v)
  ]

  remove_parts-mem :
      (ps : List Part) (r : Rlist)
      → IsValid r
      → IsValid (remove_parts sid ps r)
        × (mem n (remove_parts sid ps r) ≡ (mem n r && not (part_holds sid n ps)))
  unfolding remove_parts part_holds
  remove_parts-mem [] r v = (v, ground arith)
  remove_parts-mem (p ∷ ps) r v =
      let (valid, same) = remove_articles-mem p.articles r v in
      let (valid', same') = remove_parts-mem ps (remove_articles sid p.articles r) valid in
      (valid', ground (arith, same, same'))

  remove_files-mem :
      (fs : List NntpFile) (r : Rlist)
      → IsValid r
      → IsValid (remove_files sid fs r)
        × (mem n (remove_files sid fs r) ≡ (mem n r && not (holds sid n fs)))
  unfolding remove_files holds
  remove_files-mem [] r v = (v, ground arith)
  remove_files-mem (f ∷ fs) r v =
      let (valid, same) = remove_parts-mem f.parts r v in
      let (valid', same') = remove_files-mem fs (remove_parts sid f.parts r) valid in
      (valid', ground (arith, same, same'))

-- If newlow is at most newhigh, and that at most ULONG_MAX, getxrange leaves, of the numbers from
-- the smaller of newlow and the server's low number to newhigh, those of which the cache holds no
-- article from the server, and no other, in a well-formed list.
pub getxrange_between-mem :
    (info : ServerInfo) (newlow newhigh n : ℕ) (fs : List NntpFile)
    → newlow ≤ newhigh
    → newhigh ≤ ulong_max
    → IsValid (getxrange_between info newlow newhigh fs)
      × (mem n (getxrange_between info newlow newhigh fs) ≡ (
          within (if ltb newlow info.low then newlow else info.low) newhigh n
          && not (holds info.serverid n fs)))
unfolding getxrange_between getxrange
getxrange_between-mem info newlow newhigh n fs q u =
    let (valid, same) =
      remove_files-mem info.serverid n fs _ (insert-IsValid from newhigh [] tt below u) in
    (valid, ground (arith, same, inserted))
  where
    from : ℕ
    from = if ltb newlow info.low then newlow else info.low

    below : from ≤ newhigh
    below = ground arith

    nothing : mem n [] ≡ false
    nothing = unfold mem in refl

    inserted : mem n (insert from newhigh []) ≡ within from newhigh n
    inserted = ground (arith, insert-mem from newhigh n [] tt below u, nothing)

-- ===== src/Par/Sets.antt =====
-- par.h: ParSetInfo's methods. A count is of files, so it does not overflow.
use nget.Prelude.{ℕ, zero, suc, ◌+◌, List, [], ◌∷◌, ◌++◌, false, ltb, if◌then◌else◌, Text}
use nget.Cache.{NntpFile}
use nget.Par.{Surroundings, insert_server_file, NntpFilesU, addfile, ParSetInfo}

-- ParSetInfo::addserverpar and addserverpxx
unfoldable pub addserverpar : NntpFile → ParSetInfo → ParSetInfo
unfolding insert_server_file
addserverpar f p = record p { serverpars = insert_server_file f p.serverpars }

unfoldable pub addserverpxx : NntpFile → ParSetInfo → ParSetInfo
unfolding insert_server_file
addserverpxx f p = record p { serverpxxs = insert_server_file f p.serverpxxs }

-- what a method changes besides its object: the files to fetch; and what it counts
pub record Fetch : Type 0 where
  pub count : ℕ
  pub fc : NntpFilesU

-- the loop over serverpars
unfoldable pub fetch_all : Surroundings → Text → Text → List NntpFile → Fetch → Fetch
unfolding addfile
fetch_all s path temppath [] r = r
fetch_all s path temppath (f ∷ fs) r =
    fetch_all s path temppath fs
      (record { count = r.count + 1; fc = addfile s f path temppath false r.fc })

-- the loop for `smallest`: its place, and where `cur` is
unfoldable pub smallest_of : Surroundings → NntpFile → ℕ → ℕ → List NntpFile → ℕ × NntpFile
smallest_of s smallest at_smallest at_cur [] = (at_smallest, smallest)
smallest_of s smallest at_smallest at_cur (f ∷ fs) =
    let better = smallest_of s f at_cur (suc at_cur) fs in
    let same = smallest_of s smallest at_smallest (suc at_cur) fs in
    if ltb (s.bytes f) (s.bytes smallest) then better else same

unfoldable pub erase_file : ℕ → List NntpFile → List NntpFile
erase_file i [] = []
erase_file zero (f ∷ fs) = fs
erase_file (suc i) (f ∷ fs) = f ∷ erase_file i fs

-- ParSetInfo::get_initial_pars
unfoldable pub initial_pxx :
    Surroundings → Text → Text → List NntpFile → NntpFilesU → Fetch × ParSetInfo
unfolding smallest_of erase_file addfile
initial_pxx s path temppath [] fc =
    (record { count = 0; fc = fc }, record { serverpars = []; serverpxxs = [] })
initial_pxx s path temppath (f ∷ fs) fc =
    let (i, smallest) = smallest_of s f 0 1 fs in
    (
      record { count = 1; fc = addfile s smallest path temppath false fc },
      record { serverpars = []; serverpxxs = erase_file i (f ∷ fs) },
    )

unfoldable pub initial_set :
    Surroundings → Text → Text → List NntpFile → List NntpFile → NntpFilesU → Fetch × ParSetInfo
unfolding fetch_all initial_pxx
initial_set s path temppath [] pxxs fc = initial_pxx s path temppath pxxs fc
initial_set s path temppath (f ∷ fs) pxxs fc = (
  fetch_all s path temppath (f ∷ fs) (record { count = 0; fc = fc }),
  record { serverpars = []; serverpxxs = pxxs },
)

unfoldable pub get_initial_set :
    Surroundings → Text → Text → ParSetInfo → NntpFilesU → Fetch × ParSetInfo
unfolding initial_set
get_initial_set s path temppath p fc = initial_set s path temppath p.serverpars p.serverpxxs fc

-- ParSetInfo::release_unclaimed_pxxs
unfoldable pub release_unclaimed_pxxs : ParSetInfo → List NntpFile → ParSetInfo × List NntpFile
release_unclaimed_pxxs p unclaimedfiles =
    (record p { serverpxxs = [] }, unclaimedfiles ++ p.serverpxxs)

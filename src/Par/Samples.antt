-- ===== src/Par/Samples.antt =====
-- Files and par sets for the tests.
use nget.Prelude.{pos, List, [], ◌∷◌, true, ◌==◌, if◌then◌else◌, some, none, Text, codes}
use nget.Cache.{NntpFile}
use nget.Par.{Regex, Surroundings, NntpFilesU, LocalParFiles, ParXInfo}

-- p and a number, for a volume
abbrev pub volume_re : Regex
volume_re [] = none
volume_re (c ∷ cs) = if c == 112 then some ((c ∷ cs) ∷ cs ∷ []) else none

-- v, the first packet and their number, of a digit each
abbrev pub packet_re : Regex
packet_re (c ∷ a ∷ b ∷ []) =
    if c == 118 then some ((c ∷ a ∷ b ∷ []) ∷ (a ∷ b ∷ []) ∷ (a ∷ []) ∷ (b ∷ []) ∷ []) else none
packet_re t = none

abbrev pub file_named : Text → NntpFile
file_named subject = record {
  base = record { req = pos 1; partoff = pos 0; author = []; subject = subject; references = [] };
  parts = record { partnum = pos 1; articles = []; date = 7; messageid = [] } ∷ [];
  have = pos 1;
  flags = 0;
  tailoff = pos 0;
  update = 0;
}

abbrev pub surroundings : Surroundings
surroundings = record {
  bytes = λ f. 100;
  lines = λ f. 2000;
  autopar_optimistic = true;
  parsubj_re = λ t. none;
  par2subj_re = λ t. none;
  par2pxxre = λ t. none;
}

abbrev pub local_with : Regex → LocalParFiles
local_with r = record {
  subjmatches = (codes "k", r) ∷ [];
  basenames = (codes "k", codes "x" ∷ []) ∷ [];
  basefilenames = (codes "k", codes "x.par" ∷ []) ∷ [];
  badbasenames = [];
}

abbrev pub info_with : Regex → List NntpFile → ParXInfo
info_with r fs = record {
  serverpars = [];
  serverpxxs = fs;
  finished_parsets = [];
  finished_okcount = 0;
  parsets = [];
  localpars = local_with r;
  path = codes "d";
  temppath = codes "t";
}

abbrev pub nothing_to_fetch : NntpFilesU
nothing_to_fetch = record { bytes = 0; lines = 0; files = [] }

abbrev pub two_volumes : ParXInfo
two_volumes = info_with volume_re (file_named (codes "p1") ∷ file_named (codes "p2") ∷ [])

-- ===== src/InfoProvider/Session.antt =====
-- The paths of a session in src/ObexInfoProvider.cpp, and what onUpdated makes of them.
use objxp.Common.{
  ◌≡◌, ◌≢◌, refl, List, [], ◌∷◌, ◌++◌, none, some, Bytes, codes, bytes_eq, contains, Lacks,
  getlines, All, arith,
}
use objxp.PropertyTree.{assoc_get}
use objxp.Tree.Callbacks.{object_insert}
use objxp.YPath.{before, mk_y_path, part_loop, parse_y_path}
use objxp.YPath.Print.{Part, fixed, bound, slashed, IsPart}
use objxp.YPath.Back.{IsText, getlines-slashed, parse_y_path-mk_y_path}
use objxp.InfoProvider.{cmd_path, rsp_path, log_path, sid_var}

-- The path of a leaf of a session.
abbrev pub session_path : Bytes → Bytes → Bytes
session_path sid leaf = codes "/proc/session/" ++ (sid ++ (b'/' ∷ leaf))

abbrev parts : Bytes → Bytes → List Part
parts sid leaf = fixed (codes "session") ∷ bound (codes "SID") sid ∷ fixed leaf ∷ []

parts-IsPart :
    (sid leaf : Bytes)
    → IsText sid
    → IsPart (fixed leaf)
    → All IsPart (fixed (codes "proc") ∷ parts sid leaf)
parts-IsPart sid leaf h g =
    let proc : IsPart (fixed (codes "proc")) = ground arith in
    let session : IsPart (fixed (codes "session")) = ground arith in
    let var : (codes "SID" ≢ [])
        × Lacks b'/' (codes "SID")
        × Lacks b'=' (codes "SID")
        × Lacks b'}' (codes "SID") =
      ground arith in
    (proc, (session, ((var.0, var.1, var.2, var.3, h.0, h.1), (g, tt))))

cmd-IsPart : IsPart (fixed (codes "cmd"))
cmd-IsPart = ground arith

rsp-IsPart : IsPart (fixed (codes "rsp"))
rsp-IsPart = ground arith

pub mk_y_path-rsp_path :
    (sid : Bytes)
    → IsText sid
    → mk_y_path rsp_path ((sid_var ++ (b'=' ∷ sid)) ∷ []) ≡ some (session_path sid (codes "rsp"))
unfolding slashed assoc_get
mk_y_path-rsp_path sid h =
    (parse_y_path-mk_y_path (fixed (codes "proc")) (parts sid (codes "rsp"))
      (parts-IsPart sid (codes "rsp") h rsp-IsPart) (refl, tt)).0

pub parse_y_path-cmd_path :
    (sid : Bytes)
    → IsText sid
    → parse_y_path [] cmd_path (session_path sid (codes "cmd")) ≡ some ((sid_var, sid) ∷ [])
unfolding slashed assoc_get
parse_y_path-cmd_path sid h =
    (parse_y_path-mk_y_path (fixed (codes "proc")) (parts sid (codes "cmd"))
      (parts-IsPart sid (codes "cmd") h cmd-IsPart) (refl, tt)).1

getlines-session_path :
    (sid : Bytes)
    → IsText sid
    → getlines b'/' (codes "proc/session/" ++ (sid ++ codes "/rsp"))
      ≡ codes "proc" ∷ codes "session" ∷ sid ∷ codes "rsp" ∷ []
unfolding slashed
getlines-session_path sid h =
    getlines-slashed (codes "proc") (codes "session" ∷ sid ∷ codes "rsp" ∷ []) (ground arith)
      (ground arith, (h, (ground arith, tt)))

pub parse_y_path-rsp :
    (sid : Bytes) → IsText sid → parse_y_path [] cmd_path (session_path sid (codes "rsp")) ≡ none
unfolding parse_y_path
parse_y_path-rsp sid h =
    rw (getlines-session_path sid h)
      (unfold getlines part_loop bytes_eq contains before object_insert assoc_get in refl)

pub parse_y_path-no_log :
    (sid : Bytes) → IsText sid → parse_y_path [] log_path (session_path sid (codes "rsp")) ≡ none
unfolding parse_y_path
parse_y_path-no_log sid h =
    rw (getlines-session_path sid h) (unfold getlines part_loop bytes_eq in refl)

-- ===== src/Session/Reports.antt =====
-- What the server's handler of deletions tells the client, and what it does to the files.
use ssnproj.Base.{◌^◌, ◌<◌, ◌≡◌, refl, ap, ◌∙◌, Bool, true, false, if◌then◌else◌, length, arith}
use ssnproj.Base.{Result, ok, err, some, delete_failed}
use ssnproj.Bytes.BigEndian.{Bytes}
use ssnproj.Crypto.{CryptoLib}
use ssnproj.Effects.{Action, check, ignoring}
use ssnproj.Effects.Laws.{check-ok, check-err}
use ssnproj.Server.World.{Os, text, is_not_exist}
use ssnproj.Server.Handlers.{respond, refuse, remove_if_there}
use ssnproj.Server.Connection.{secure_sender}
use ssnproj.Session.Refusals.{refuse_ends}

-- What the server tells of a deletion: of a file that is not there, or with this result of the
-- removal.
pub data Report : Type 0 where
  missing : Report
  removed : Result (Unit {0}) → Report

abbrev pub went_well : Report → Bool
went_well (removed (ok _)) = true
went_well _ = false

abbrev pub report_text : Report → Bytes
report_text missing = text "File not found"
report_text (removed (ok _)) = text "File deleted successfully"
report_text (removed (err e)) = text "Failed to delete file"

-- The result of the server's handler: only a removal that failed fails it.
abbrev pub handler_result : Report → Result (Unit {0})
handler_result missing = ok tt
handler_result (removed r) = r

-- The result of the client's deletion.
abbrev pub client_result : Report → Result (Unit {0})
client_result missing = err (delete_failed (text "File not found"))
client_result (removed (ok _)) = ok tt
client_result (removed (err e)) = err (delete_failed (text "Failed to delete file"))

pub report_short : (d : Report) → length (report_text d) < 2 ^ 16
report_short missing = omega arith
report_short (removed (ok _)) = omega arith
report_short (removed (err _)) = omega arith

module _ {W : Type 0} (os : Os W) where
  abbrev pub report_on : Bool → Bytes → W → Report
  report_on true p w = missing
  report_on false p w = removed (os.remove p w).0

  -- The world behind the removal, if there is one.
  abbrev pub world_after : Bool → Bytes → W → W
  world_after true p w = w
  world_after false p w = (os.remove p w).1

  -- What there is to tell of the path.
  abbrev pub report : Bytes → W → Report
  report p w = report_on (is_not_exist (os.stat p w)) p w

  abbrev pub cleared : Bytes → W → W
  cleared p w = world_after (is_not_exist (os.stat p w)) p w

module _ {W : Type 0} (os : Os W) (lib : CryptoLib W) (net : Bytes → Action W (Unit {0}))
    (sha256 : Bytes → Bytes) (key : Bytes) where
  -- The handler answers for each result of the removal.
  reported :
      (p : Bytes) (r : Result (Unit {0})) (w u : W)
      → (os.remove p w).0 ≡ r
      → respond os
          (secure_sender os lib net sha256 (some key))
          sha256
          (went_well (removed r))
          (report_text (removed r))
          (os.remove p w).1
        ≡ (ok tt, u)
      → check
          (os.remove p)
          (refuse os
            (secure_sender os lib net sha256 (some key))
            sha256
            (text "Failed to delete file"))
          (λ _.
            respond os
              (secure_sender os lib net sha256 (some key))
              sha256
              true
              (text "File deleted successfully"))
          w
        ≡ (r, u)
  reported p (ok _) w u e told =
      check-ok (os.remove p) _ _ w (os.remove p w).1
        (ap (λ (r : Result (Unit {0})). (r, (os.remove p w).1)) e)
      ∙ told
  reported p (err x) w u e told =
      check-err (os.remove p) _ _ w (os.remove p w).1
        (ap (λ (r : Result (Unit {0})). (r, (os.remove p w).1)) e)
      ∙ refuse_ends os lib net sha256 key (text "Failed to delete file") x (os.remove p w).1 u told

  pub remove_reports :
      (p : Bytes) (w u : W)
      → respond os
          (secure_sender os lib net sha256 (some key))
          sha256
          (went_well (report os p w))
          (report_text (report os p w))
          (cleared os p w)
        ≡ (ok tt, u)
      → remove_if_there os (secure_sender os lib net sha256 (some key)) sha256 p w
        ≡ (handler_result (report os p w), u)
  unfolding remove_if_there ignoring
  remove_reports p w u told = go (is_not_exist (os.stat p w)) told
    where
      go :
          (b : Bool)
          → respond os
              (secure_sender os lib net sha256 (some key))
              sha256
              (went_well (report_on os b p w))
              (report_text (report_on os b p w))
              (world_after os b p w)
            ≡ (ok tt, u)
          → (if b
              then ignoring
                  (respond os
                    (secure_sender os lib net sha256 (some key))
                    sha256
                    false
                    (text "File not found"))
                  w
              else check
                  (os.remove p)
                  (refuse os
                    (secure_sender os lib net sha256 (some key))
                    sha256
                    (text "Failed to delete file"))
                  (λ _.
                    respond os
                      (secure_sender os lib net sha256 (some key))
                      sha256
                      true
                      (text "File deleted successfully"))
                  w)
            ≡ (handler_result (report_on os b p w), u)
      go true told = ap (λ (q : Result (Unit {0}) × W). (ok tt, q.1)) told
      go false told = reported p (os.remove p w).0 w u refl told

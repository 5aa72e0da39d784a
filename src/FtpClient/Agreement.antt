-- ===== src/FtpClient/Agreement.antt =====
-- The commands on the two sides of a connection.
use cmy_message.Prelude.{
  List, ℕ, Bool, true, false, ◌||◌, ◌≡◌, ◌⊎◌, inl, inr, refl, Bool-cases, if◌then◌else◌,
}
use cmy_message.CString.{text_equal}
use cmy_message.CString.Laws.{text_equal_iff}
use cmy_message.Ftp.Numbers.{codes}
use cmy_message.Ftp.Service.Commands.{
  Command, help, upload, download, exit, list, invalid, command_of,
}
use cmy_message.FtpClient.{Action, uploading, downloading, passing_on, action_of}

-- What a client has to do so that the server can run a command.
unfoldable pub demanded : Command → Action
demanded help = passing_on
demanded upload = uploading
demanded download = downloading
demanded exit = passing_on
demanded list = passing_on
demanded invalid = passing_on

-- A text is one of the two spellings, or none of them.
spelling-cases :
    (text short long : List ℕ)
    → (text ≡ short) ⊎ (text ≡ long) ⊎ ((text_equal text short || text_equal text long) ≡ false)
spelling-cases text short long = elim (Bool-cases (text_equal text short)) [
  | inl e ↦ inl ((text_equal_iff text short).0 e)
  | inr n ↦ elim (Bool-cases (text_equal text long)) [
    | inl e ↦ inr (inl ((text_equal_iff text long).0 e))
    | inr m ↦ inr (inr (rw (n, m)))
  ]
]

passed_on :
    (exits lists : Bool)
    → passing_on ≡ demanded (if exits then exit else (if lists then list else invalid))
unfolding demanded
passed_on true lists = refl
passed_on false true = refl
passed_on false false = refl

-- The client and the server agree on every text: the client prepares an upload or a download exactly
-- if the server runs one, and passes every other text on.
pub action_of-command_of : (text : List ℕ) → action_of text ≡ demanded (command_of text)
unfolding action_of command_of demanded text_equal
action_of-command_of text = elim (spelling-cases text (codes "-h") (codes "--help")) [
  | inl e ↦ rw e
  | inr (inl e) ↦ rw e
  | inr (inr not_help) ↦ elim (spelling-cases text (codes "-u") (codes "--upload")) [
    | inl e ↦ rw e
    | inr (inl e) ↦ rw e
    | inr (inr not_upload) ↦ elim (spelling-cases text (codes "-d") (codes "--download")) [
      | inl e ↦ rw e
      | inr (inl e) ↦ rw e
      | inr (inr not_download) ↦
          rw (not_help, not_upload, not_download)
            (passed_on (text_equal text (codes "--exit"))
              (text_equal text (codes "-l") || text_equal text (codes "--list")))
    ]
  ]
]

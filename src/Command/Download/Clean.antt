-- ===== src/Command/Download/Clean.antt =====
-- What downloadPiece leaves of its temporary file: nothing, unless the call that removes it fails.
use bittorrent_client.Base.{Option, none, some, suc, ℕ, ◌≡◌, ◌≢◌, ◌⊎◌}
use bittorrent_client.Disk.{Disk, Fault, FileName, Host}

-- Apart from the output, every name stands for what it stood for, or for nothing.
abbrev pub Clean : FileName → Disk → Disk → Type 0
Clean output d e = (name : FileName) → name ≢ output → e.entry name ≡ d.entry name

-- One name that stood for nothing may be left too: that of the temporary file, and the last call of
-- the file system, number `call`, is then the removal of it, which failed on its own.
pub record LeftOver (fault : ℕ → Option Fault) (output : FileName) (d : Disk) (k : Host)
    : Type 0 where
  pub temp : FileName
  pub call : ℕ
  pub failure : Fault
  pub unused : d.entry temp ≡ none
  pub last : k.calls ≡ suc call
  pub failed : fault call ≡ some failure
  pub others : (name : FileName) → name ≢ output → name ≢ temp → k.disk.entry name ≡ d.entry name

-- Nothing is left, or the removal failed.
abbrev pub Swept : (ℕ → Option Fault) → FileName → Disk → Host → Type 0
Swept fault output d k = Clean output d k.disk ⊎ LeftOver fault output d k

-- ===== src/Command/Run/Unchanged.antt =====
-- The commands that leave the disk alone.
use bittorrent_client.Base.{
  Bool, Bool-cases, Flow, Leads, Leads-mono, List, Option, Result, [], after, after-Leads, ap,
  bytes_eq, bytes_eq→eq, false, if◌then◌else◌, inl, inr, length, none, refl, some, true, ℕ, ◌==◌,
  ◌∷◌, ◌≡◌, ◌≢◌,
}
use bittorrent_client.Disk.{Disk, Host, read_file, read_file_on}
use bittorrent_client.Command.{
  CommandError, Flags, Machine, announce_started, argument_count, check_announce_flags, find_peer,
  give, input_of, new_peer_id, open_input, parsed_flags, refuse,
}
use bittorrent_client.Command.Steps.{
  Opens, Still, give-Leads, look-Outcome, open_input-Leads, refuse-Leads,
}
use bittorrent_client.Command.Run.{
  announce, announce_command, check_content, dispatch, download_command, handshake,
  handshake_command, inspect, inspect_command, run, with_torrent,
}

module _ (m : Machine) (d : Disk) where
  open m use {fault, writer, random}

  abbrev Stays : {A : Type 0} → Flow CommandError Host A → Type 0
  Stays r = Leads (λ _ k. Still d k) (λ _ k. Still d k) r

  after-Stays :
      {A B : Type 0} (r : Flow CommandError Host A) (f : A → Host → Flow CommandError Host B)
      → Stays r
      → ((a : A) (k : Host) → Still d k → Stays (f a k))
      → Stays (after r f)
  after-Stays r f h k = after-Leads (λ _ j. Still d j) (λ _ j. Still d j) (λ _ j. Still d j) r f h k

  give-Stays : {A : Type 0} (r : Result CommandError A) (h : Host) → Still d h → Stays (give r h)
  give-Stays r h s = give-Leads (λ _ k. Still d k) (Still d) r h (λ _ _. s) s

  refuse-Stays : (o : Option CommandError) (h : Host) → Still d h → Stays (refuse o h)
  refuse-Stays o h s = refuse-Leads (λ _ k. Still d k) (Still d) o h (λ _. s) s

  open_input-Stays :
      (f : Flags) (h : Host) → Still d h → Stays (open_input m (read_file fault (input_of f) h))
  open_input-Stays f h s =
      Leads-mono (λ t k. Still d k × Opens m f d t) (λ _ k. Still d k) (λ _ k. Still d k)
        (λ _ k. Still d k) _ (λ t k q. q.0) (λ e k q. q)
        (open_input-Leads m f d _ (look-Outcome fault (λ e. read_file_on e (input_of f)) d h s))

  inspect-Stays : (args : List (List ℕ)) (h : Host) → Still d h → Stays (inspect m args h)
  unfolding inspect
  inspect-Stays args h s = after-Stays _ _ (give-Stays (parsed_flags m args) h s) λ f k a.
      after-Stays _ _ (refuse-Stays (if length f.args == 1 then none else some argument_count) k a)
        λ _ j b. after-Stays _ _ (open_input-Stays f j b) λ t i c. c

  with_torrent-Stays : (args : List (List ℕ)) (h : Host) → Still d h → Stays (with_torrent m args h)
  unfolding with_torrent
  with_torrent-Stays args h s = after-Stays _ _ (give-Stays (parsed_flags m args) h s) λ f k a.
      after-Stays _ _ (refuse-Stays (check_announce_flags f) k a) λ _ j b.
        after-Stays _ _ (open_input-Stays f j b)
          λ t i c. after-Stays _ _ (refuse-Stays (check_content t) i c) λ _ l e. e

  announce-Stays : (args : List (List ℕ)) (h : Host) → Still d h → Stays (announce m args h)
  unfolding announce
  announce-Stays args h s = after-Stays _ _ (with_torrent-Stays args h s) λ x k a.
      after-Stays _ _ (give-Stays (new_peer_id random) k a) λ peer_id j b.
        after-Stays _ _ (give-Stays (announce_started m x.0 x.1 peer_id) j b) λ r i c. c

  handshake-Stays : (args : List (List ℕ)) (h : Host) → Still d h → Stays (handshake m args h)
  unfolding handshake
  handshake-Stays args h s = after-Stays _ _ (with_torrent-Stays args h s) λ x k a.
      after-Stays _ _ (give-Stays (new_peer_id random) k a)
        λ peer_id j b. after-Stays _ _ (give-Stays (find_peer m x.0 x.1 peer_id) j b) λ r i c. c

  if-Stays :
      {A : Type 0} (b : Bool) (x y : Flow CommandError Host A)
      → Stays x
      → (b ≡ false → Stays y)
      → Stays (if b then x else y)
  if-Stays true x y h k = h
  if-Stays false x y h k = k refl

  dispatch-Stays :
      (command : List ℕ) (args : List (List ℕ)) (h : Host)
      → command ≢ download_command
      → Still d h
      → Stays (dispatch m command args h)
  unfolding dispatch
  dispatch-Stays command args h other s =
      if-Stays (bytes_eq command inspect_command) _ _ (inspect-Stays args h s) λ _.
        if-Stays (bytes_eq command announce_command) _ _ (announce-Stays args h s) λ _.
          if-Stays (bytes_eq command handshake_command) _ _ (handshake-Stays args h s) λ _.
            elim (Bool-cases (bytes_eq command download_command)) [
              | inl same ↦ absurd (other (bytes_eq→eq command download_command same))
              | inr apart ↦ rw apart s
            ]

  -- The program leaves every name and every file as it was, whether it ends well or fails, unless
  -- its command is download-piece.
  pub run-Unchanged :
      (args : List (List ℕ)) (h : Host)
      → ((rest : List (List ℕ)) → args ≢ download_command ∷ rest)
      → h.disk ≡ d
      → Leads (λ _ k. k.disk ≡ d) (λ _ k. k.disk ≡ d) (run m args h)
  unfolding run
  run-Unchanged [] h other s = s
  run-Unchanged (command ∷ args) h other s =
      dispatch-Stays command args h (λ same. other args (ap (λ c. c ∷ args) same)) s

-- ===== src/Command/Download/Publishing.antt =====
-- How downloadPiece publishes its file, and what its deferred calls leave.
use bittorrent_client.Base.{
  Bool, Leads, Leads-mono, List, after, after-Leads, bytes_eq, false, inl, none, ok, refl, subst,
  sym, true, ℕ, ◌≡◌,
}
use bittorrent_client.Disk.{
  Disk, File, FileName, Host, changed, close_file, link, link_on, linked, regular, remove, rename,
  rename_on,
}
use bittorrent_client.Disk.Calls.{Outcome, call-Outcome}
use bittorrent_client.Disk.Entries.{link_on-ok, rename_on-ok}
use bittorrent_client.Command.{Machine, lift, not_closed, not_published, not_removed}
use bittorrent_client.Command.Steps.{Still, lift-Leads, look-Leads}
use bittorrent_client.Command.Download.{publish, clean_up}
use bittorrent_client.Command.Download.Placed.{
  Bad, Good, Good-Bad, Loose, Ready, Ready-Good, unlinked-Bad, unlinked-Good, unlinked-Loose,
}
use bittorrent_client.Command.Download.Removed.{changed-ok, clean_up-keeps, remove-Outcome}

pub clean_up-Loose :
    (m : Machine) (f : File) (output : FileName) (d : Disk) (h : Host)
    → Loose f output d h.disk
    → Loose f output d (clean_up m f h).disk
clean_up-Loose m f output d h l =
    clean_up-keeps m f (Loose f output d) h (λ e x. unlinked-Loose f output d e x) l

module _ (m : Machine) (f : File) (output : FileName) (n : ℕ) (hash : List ℕ) (d : Disk)
    (apart : bytes_eq output f.name ≡ false) where
  open m use {fault, sha1}

  abbrev G : Disk → Type 0
  G e = Good m f output n hash d apart e

  abbrev B : Disk → Type 0
  B e = Bad m f output n hash d apart e

  closed-Leads :
      (e : Disk) (h : Host)
      → Still e h
      → Ready m f output n hash d apart e
      → Leads (λ _ k. Still e k) (λ _ k. B k.disk) (lift not_closed (close_file fault h))
  closed-Leads e h s r =
      Leads-mono (λ _ k. Still e k × (ok tt ≡ ok tt)) (λ _ k. Still e k) (λ _ k. Still e k)
        (λ _ k. B k.disk) _ (λ a k q. q.0) (λ x k q. subst B (sym q) (r.loose, inl r.same))
        (look-Leads fault (λ _. ok tt) not_closed e h s)

  rename-Outcome :
      (e : Disk) (h : Host)
      → Still e h
      → Ready m f output n hash d apart e
      → Outcome (λ _ k. G k.disk) (λ k. B k.disk) (rename fault f.name output h)
  rename-Outcome e h s r =
      call-Outcome fault (λ _ k. G k.disk) (λ k. B k.disk)
        (λ x. changed (rename_on f.name output x)) h
        (λ a x q.
          subst G
            (sym (
              rename_on-ok f.name output e x f.inode (e.entry output) r.mine refl r.other (
                subst (λ y. rename_on f.name output y ≡ ok x) s
                  (changed-ok (rename_on f.name output h.disk) a x q))))
            (unlinked-Good m f output n hash d apart (linked e (regular f.inode) output)
              (Ready-Good m f output n hash d apart e r)))
        (subst B (sym s) (r.loose, inl r.same))

  -- Published where nothing was.
  abbrev New : Disk → Disk → Type 0
  New e x = G x × (e.entry output ≡ none)

  link-Outcome :
      (e : Disk) (h : Host)
      → Still e h
      → Ready m f output n hash d apart e
      → Outcome (λ _ k. New e k.disk) (λ k. B k.disk) (link fault f.name output h)
  link-Outcome e h s r =
      call-Outcome fault (λ _ k. New e k.disk) (λ k. B k.disk)
        (λ x. changed (link_on f.name output x)) h
        (λ a x q.
          let (free, moved) =
            link_on-ok f.name output e x (regular f.inode) (e.entry output) r.mine refl (
              subst (λ y. link_on f.name output y ≡ ok x) s
                (changed-ok (link_on f.name output h.disk) a x q)) in
          (subst G (sym moved) (Ready-Good m f output n hash d apart e r), free))
        (subst B (sym s) (r.loose, inl r.same))

  -- Published, and without force only where nothing was.
  abbrev pub Published : Bool → Disk → Disk → Type 0
  Published force e x = Good m f output n hash d apart x × (force ≡ false → e.entry output ≡ none)

  -- Publishing a verified file puts it under the output; when it fails, the output is as it was, or
  -- stands for the verified file already.
  pub publish-Leads :
      (force : Bool) (e : Disk) (h : Host)
      → Still e h
      → Ready m f output n hash d apart e
      → Leads
          (λ _ k. Published force e k.disk)
          (λ _ k. Bad m f output n hash d apart k.disk)
          (publish m f force output h)
  unfolding publish
  publish-Leads true e h s r =
      after-Leads (λ _ k. Still e k) (λ _ k. Published true e k.disk) (λ _ k. B k.disk)
        (lift not_closed (close_file fault h))
        (λ _ k. lift not_published (rename fault f.name output k)) (closed-Leads e h s r)
        λ _ k q.
          Leads-mono (λ _ j. G j.disk) (λ _ j. Published true e j.disk) (λ _ j. B j.disk)
            (λ _ j. B j.disk) (lift not_published (rename fault f.name output k))
            (λ a j g. (g, λ x. cc)) (λ x j b. b)
            (lift-Leads (λ _ j. G j.disk) (λ j. B j.disk) not_published _ (rename-Outcome e k q r))
  publish-Leads false e h s r =
      after-Leads (λ _ k. Still e k) (λ _ k. Published false e k.disk) (λ _ k. B k.disk)
        (lift not_closed (close_file fault h))
        (λ _ k.
          after (lift not_published (link fault f.name output k))
            λ _ j. lift not_removed (remove fault f.name j))
        (closed-Leads e h s r)
        λ _ k q.
          after-Leads (λ _ j. New e j.disk) (λ _ j. Published false e j.disk) (λ _ j. B j.disk)
            (lift not_published (link fault f.name output k))
            (λ _ j. lift not_removed (remove fault f.name j))
            (lift-Leads (λ _ j. New e j.disk) (λ j. B j.disk) not_published _
              (link-Outcome e k q r))
            λ _ j g.
              lift-Leads (λ _ i. Published false e i.disk) (λ i. B i.disk) not_removed _
                (remove-Outcome m f (Published false e) B j
                  (λ x p. (unlinked-Good m f output n hash d apart x p.0, p.1))
                  (λ x p. Good-Bad m f output n hash d apart x p.0) (g.0, λ _. g.1))

  pub clean_up-Published :
      (force : Bool) (e : Disk) (h : Host)
      → Published force e h.disk
      → Published force e (clean_up m f h).disk
  clean_up-Published force e h p =
      clean_up-keeps m f (Published force e) h
        (λ x q. (unlinked-Good m f output n hash d apart x q.0, q.1)) p

  pub clean_up-Bad :
      (h : Host)
      → Bad m f output n hash d apart h.disk
      → Bad m f output n hash d apart (clean_up m f h).disk
  clean_up-Bad h b = clean_up-keeps m f B h (unlinked-Bad m f output n hash d apart) b

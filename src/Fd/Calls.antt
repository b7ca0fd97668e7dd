-- ===== src/Fd/Calls.antt =====
-- Each call on a descriptor (tasking/fd.rs) keeps the counts of the pipes equal to the ends in use.
use leaf_os_alpha.Base.{
  ℕ, ◌≡◌, refl, subst, Bool, true, false, Option, none, some, List, [], ◌∷◌, ◌++◌, ◌==◌, ltb, ◌&&◌,
  ◌||◌, not, length, get_elem?, modify, take, ◌*◌, Result, ok, err, Bool-cases, inl, inr,
}
use leaf_os_alpha.Pipe
use leaf_os_alpha.Pipe.{Pipe}
use leaf_os_alpha.Pipe.Stream.{IsSound, new-IsSound, read_lem, write_lem}
use leaf_os_alpha.Fd.{
  FileRead, FileWrite, FileDescriptor, stdin, console, pipe_read, pipe_write, file_write, file_read,
  Store, FileSystem, clone, close, create_pipe, read, write, create_file_write, create_file_read,
  read_pipe, read_file, write_pipe, write_to_file, save_file, open_write, open_read,
}
use leaf_os_alpha.Fd.World.{opened, Counts}
use leaf_os_alpha.Fd.Ends.{AllAgree, Agrees, AllAgree-create, AllAgree-plain, AllAgree-same}
use leaf_os_alpha.Fd.Ends.Changes.{
  clone_reader, clone_writer, close_reader, close_writer, close_plain,
}

module _ {Disk : Type 0} where
  pub clone-AllAgree :
      (s : Store Disk) (d : FileDescriptor) (before after : List FileDescriptor)
      → AllAgree s.pipes (before ++ (d ∷ after))
      → AllAgree (clone s d).pipes (d ∷ (before ++ (d ∷ after)))
  unfolding clone
  clone-AllAgree s stdin before after all = AllAgree-plain stdin s.pipes _ tt all
  clone-AllAgree s console before after all = AllAgree-plain console s.pipes _ tt all
  clone-AllAgree s (pipe_read i) before after all = clone_reader i s.pipes before after all
  clone-AllAgree s (pipe_write i) before after all = clone_writer i s.pipes before after all
  clone-AllAgree s (file_write i) before after all = AllAgree-plain (file_write i) s.pipes _ tt all
  clone-AllAgree s (file_read i) before after all = AllAgree-plain (file_read i) s.pipes _ tt all

  pub close-AllAgree :
      (s : Store Disk) (d : FileDescriptor) (before after : List FileDescriptor)
      → AllAgree s.pipes (before ++ (d ∷ after))
      → AllAgree (close s d).pipes (before ++ after)
  unfolding close
  close-AllAgree s stdin before after all = close_plain stdin s.pipes before after tt all
  close-AllAgree s console before after all = close_plain console s.pipes before after tt all
  close-AllAgree s (pipe_read i) before after all = close_reader i s.pipes before after all
  close-AllAgree s (pipe_write i) before after all = close_writer i s.pipes before after all
  close-AllAgree s (file_write i) before after all =
      close_plain (file_write i) s.pipes before after tt all
  close-AllAgree s (file_read i) before after all =
      close_plain (file_read i) s.pipes before after tt all

  module _ (s : Store Disk) (live : List FileDescriptor) (all : AllAgree s.pipes live) where
    pub create_pipe-AllAgree :
        AllAgree (create_pipe s).2.pipes ((create_pipe s).0 ∷ (create_pipe s).1 ∷ live)
    unfolding create_pipe
    create_pipe-AllAgree =
        AllAgree-create (record Pipe.new { readers = 1 }) s.pipes live refl
          (unfold Pipe.new in refl) new-IsSound all

    read_pipe-AllAgree :
        (i size : ℕ) (o : Option Pipe)
        → get_elem? s.pipes i ≡ o
        → AllAgree (read_pipe s i o size).1.pipes live
    unfolding read_pipe
    read_pipe-AllAgree i size none e = all
    read_pipe-AllAgree i size (some p) e =
        let sound : IsSound p = (subst (λ o. Agrees i o live) e (all i)).2 in
        let (_, _, _, v, r, w) = read_lem p size sound in
        elim (Bool-cases ((p.ring.count == 0) && not (p.writers == 0))) [
          | inl t ↦ rw t all
          | inr t ↦ rw t (AllAgree-same p (Pipe.read p size).2 i s.pipes live e r w v all)
        ]

    read_file-AllAgree :
        (i size : ℕ) (o : Option FileRead) → AllAgree (read_file s i o size).1.pipes live
    unfolding read_file
    read_file-AllAgree i size none = all
    read_file-AllAgree i size (some f) = all

    pub read-AllAgree : (d : FileDescriptor) (size : ℕ) → AllAgree (read s d size).1.pipes live
    unfolding read
    read-AllAgree stdin size = all
    read-AllAgree console size = all
    read-AllAgree (pipe_read i) size = read_pipe-AllAgree i size (get_elem? s.pipes i) refl
    read-AllAgree (pipe_write i) size = all
    read-AllAgree (file_write i) size = all
    read-AllAgree (file_read i) size = read_file-AllAgree i size (get_elem? s.file_reads i)

    write_pipe-AllAgree :
        (i : ℕ) (input : List ℕ) (o : Option Pipe)
        → get_elem? s.pipes i ≡ o
        → AllAgree (write_pipe s i o input).1.pipes live
    unfolding write_pipe
    write_pipe-AllAgree i input none e = all
    write_pipe-AllAgree i input (some p) e =
        let sound : IsSound p = (subst (λ o. Agrees i o live) e (all i)).2 in
        let (_, _, v, r, w) = write_lem p input sound in
        elim (Bool-cases (p.readers == 0)) [
          | inl t ↦ rw t all
          | inr t ↦ rw t (AllAgree-same p (Pipe.write p input).1 i s.pipes live e r w v all)
        ]

    module _ (fs : FileSystem Disk) where
      save_file-AllAgree :
          (s' : Store Disk) (n : ℕ) (r : Bool × Disk)
          → AllAgree s'.pipes live
          → AllAgree (save_file fs s' n r).1.pipes live
      unfolding save_file
      save_file-AllAgree s' n (true, disk') a = a
      save_file-AllAgree s' n (false, disk') a = a

      write_to_file-AllAgree :
          (i : ℕ) (input : List ℕ) (o : Option FileWrite)
          → AllAgree (write_to_file fs s i o input).1.pipes live
      unfolding write_to_file
      write_to_file-AllAgree i input none = all
      write_to_file-AllAgree i input (some f) =
          elim (Bool-cases (fs.is_utf8 (take f.path_len f.path))) [
            | inl t ↦ rw t (
                save_file-AllAgree
                  (record s {
                    file_writes =
                        modify (λ _. record f { contents = f.contents ++ input }) i s.file_writes;
                  })
                  (length input) _ all)
            | inr t ↦ rw t all
          ]

      open_write-Counts :
          (path : List ℕ) (r : Bool × Disk) → Counts (opened (open_write fs s path r) live)
      unfolding open_write
      open_write-Counts path (false, disk') = all
      open_write-Counts path (true, disk') = AllAgree-plain (file_write _) s.pipes live tt all

      open_read-Counts :
          (r : Result (Option (List ℕ)) (Unit {0})) → Counts (opened (open_read fs s r) live)
      unfolding open_read
      open_read-Counts (err e) = all
      open_read-Counts (ok none) = all
      open_read-Counts (ok (some bytes)) = AllAgree-plain (file_read _) s.pipes live tt all

      pub write-AllAgree :
          (d : FileDescriptor) (input : List ℕ) → AllAgree (write fs s d input).1.pipes live
      unfolding write
      write-AllAgree stdin input = all
      write-AllAgree console input = all
      write-AllAgree (pipe_read i) input = all
      write-AllAgree (pipe_write i) input = write_pipe-AllAgree i input (get_elem? s.pipes i) refl
      write-AllAgree (file_write i) input =
          write_to_file-AllAgree i input (get_elem? s.file_writes i)
      write-AllAgree (file_read i) input = all

      pub opens_write-Counts : (path : List ℕ) → Counts (opened (create_file_write fs s path) live)
      unfolding create_file_write
      opens_write-Counts path = elim (Bool-cases ((length path == 0) || ltb 255 (length path))) [
        | inl t ↦ rw t all
        | inr t ↦ rw t (open_write-Counts path (fs.write_file s.disk path []))
      ]

      pub opens_read-Counts : (path : List ℕ) → Counts (opened (create_file_read fs s path) live)
      unfolding create_file_read
      opens_read-Counts path = open_read-Counts (fs.read_file_vec s.disk path (1024 * 1024))

-- ===== src/Sandbox/Access.antt =====
-- services/orchestrator/src/sandbox/filesystem.ts: which files the service opens.
use minerva.Base.{
  ℕ, ◌≤◌, ◌<◌, String, ◌≡◌, refl, ◌⊎◌, inl, inr, true, List, ◌++◌, ltb, arith, or_else, truthy,
  Bool-cases,
}
use minerva.Exec.{Result, ok, err, Result-cases}
use minerva.Tools.{Thrown}
use minerva.Sandbox.{validate_path}
use minerva.Sandbox.Paths.{is_absolute, resolve}
use minerva.Sandbox.Segments.{IsName, All}
use minerva.Sandbox.Containment.{validate_path_lem}
use minerva.Tools.Registry.{FileReadOptions, FileWriteOptions}
use minerva.Sandbox.Files.{
  SandboxFs, or_number, file_too_large_error, full_path_of, read_file, check_size, store_file,
  write_file, require_valid,
}

-- A path that resolves to the root's parts and further names.
pub IsBelow : (cwd root_path full_path : String) → Type 0
IsBelow cwd root_path full_path =
    (names : List String) × All IsName names
    × (resolve cwd full_path ≡ resolve cwd root_path ++ names)

-- The call throws, and leaves the sandbox as it is.
abbrev pub Throws : {S A : Type 0} → S → Result Thrown A × S → Type 0
Throws s answer = (error : Thrown) × (answer ≡ (err error, s))

module _ {S : Type 0} (text_of : ℕ → String) (byte_length : String → String → ℕ)
    (cwd root_path : String) (max_file_size : ℕ) (fs : SandboxFs S) where
  check_size_lem :
      (user_path full_path : String) (max_size : ℕ) (s : S)
      → let check = check_size text_of byte_length cwd root_path max_file_size fs in
        let (details, s') = fs.get_file_details full_path s in
        ((size : ℕ) × (details ≡ ok size)
          × (max_size < size)
          × (check user_path full_path max_size s
              ≡ (err (file_too_large_error text_of user_path size max_size), s')))
        ⊎ ((((size : ℕ) × (details ≡ ok size) × (size ≤ max_size))
              ⊎ ((error : Thrown) × (details ≡ err error)))
            × (check user_path full_path max_size s ≡ (ok tt, s')))
  unfolding check_size
  check_size_lem user_path full_path max_size s =
      elim (Result-cases (fs.get_file_details full_path s).0) [
        | inr (error, e) ↦ rw e (inr (inr (error, refl), refl))
        | inl (size, e) ↦ rw e (elim (Bool-cases (ltb max_size size)) [
          | inl large ↦ inl (size, refl, ground arith, rw large refl)
          | inr fits ↦ inr (inl (size, refl, ground arith), rw fits refl)
        ])
      ]

  -- Where the root is an absolute path, `writeFile` either throws and leaves the sandbox as it is, or
  -- the path that it opens resolves to the root's parts and further parts none of which is empty,
  -- `.` or `..`, the content has at most the bytes that the service allows, counted in the encoding of
  -- the options, and the call is what creating the directories, writing the file and setting its
  -- permissions give. `readFile` throws and leaves the sandbox as it is; or it asks for the details of
  -- such a path and throws, where they tell a size above the limit, without reading the file; or it
  -- downloads such a path, where they tell a size within the limit or cannot be had.
  pub file_access_lem :
      (user_path content : String) (options : FileWriteOptions) (reading : FileReadOptions) (s : S)
      → is_absolute root_path ≡ true
      → let full_path = full_path_of cwd root_path user_path in
        let write = write_file text_of byte_length cwd root_path max_file_size fs in
        let store = store_file text_of byte_length cwd root_path max_file_size fs in
        let read =
          read_file text_of byte_length cwd root_path max_file_size fs user_path reading s in
        let max_size = or_number reading.max_size max_file_size in
        let (details, s') = fs.get_file_details full_path s in
        (Throws s (write user_path content options s)
          ⊎ (IsBelow cwd root_path full_path
              × (byte_length content (or_else (truthy options.encoding) "utf8") ≤ max_file_size)
              × (write user_path content options s ≡ store full_path content options s)))
        × (Throws s read
            ⊎ (IsBelow cwd root_path full_path
                × (((size : ℕ) × (details ≡ ok size)
                      × (max_size < size)
                      × (read ≡ (err (file_too_large_error text_of user_path size max_size), s')))
                    ⊎ ((((size : ℕ) × (details ≡ ok size) × (size ≤ max_size))
                          ⊎ ((error : Thrown) × (details ≡ err error)))
                        × (read ≡ fs.download full_path s')))))
  unfolding IsBelow write_file read_file require_valid
  file_access_lem user_path content options reading s h =
      elim (Bool-cases (validate_path cwd user_path root_path).is_valid) [
        | inr refused ↦ rw refused (inl (_, refl), inl (_, refl))
        | inl valid ↦
            let below = (validate_path_lem cwd user_path root_path h valid).1 in
            let size = byte_length content (or_else (truthy options.encoding) "utf8") in
            let max_size = or_number reading.max_size max_file_size in
            rw valid (
              elim (Bool-cases (ltb max_file_size size)) [
                | inl large ↦ rw large (inl (_, refl))
                | inr fits ↦ rw fits (inr (below, ground arith, refl))
              ],
              inr (
                below,
                elim (check_size_lem user_path (full_path_of cwd root_path user_path) max_size s) [
                  | inl (n, e, large, c) ↦ inl (n, e, large, rw c refl)
                  | inr (known, c) ↦ inr (known, rw c refl)
                ],
              ),
            )
      ]

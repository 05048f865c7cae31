-- ===== src/Lib.antt =====
-- buildsys++ builds embedded systems from packages. A package is described by a Lua file; the
-- program reads the base package and all that it depends on, orders them in a graph, and builds
-- each one: it fetches and extracts the sources, runs the commands, and packs what they leave into
-- a staging and an install archive, which the packages that depend on it unpack. It skips a
-- package whose description is unchanged, or takes its archives from a cache.
--
-- Shared has the common names: native numbers, Boolean tests, texts as lists of bytes. Host is the
-- operating system, a record of calls on a disk that every definition takes as a parameter:
-- commands of packages, std::system, popen, std::filesystem, SHA-256 and the clock. Effects is the
-- monad of actions, functions of a state that return, throw or run out of fuel. Model has the
-- classes of src/include/buildsys.h as records and data types: a `Package *` is a number, its
-- constant fields are `Package`, the fields that a build changes are `Progress`, and `Sys` is the
-- state of a run. Command models src/packagecmd.cpp: PackageCmd, addEnv, the verdict of Run,
-- pipe_data_thread. BuildInfo models src/buildinfo.cpp: BuildDescription. Features models
-- src/featuremap.cpp. Files models the search of Package::relative_fetch_path, getFileHash, and
-- src/hash.cpp. Fetch models src/fetch.cpp, Git src/extraction/git.cpp and Extraction
-- src/extraction.cpp. Depends, Package (Outputs, Info, Cache) and Build model src/package.cpp:
-- canBuild and the traversals of dependencies, the archives and directories, the build info files,
-- the build cache, and Package::build. Graph models src/graph.cpp. Queue models PackageQueue with
-- process_packages and process_package, and World the loop of World::basePackage with its threads,
-- both in src/world.cpp, as step relations in which the loop and the threads interleave.
--
-- Before anything is built, the packages come to be. Session models src/namespace.cpp, the
-- constructor of src/dir/builddir.cpp and the constructors of Package: the namespaces with their
-- packages, and findPackage. Lua has the values that a script passes, and Lua itself as a
-- parameter: a script is what it does between its calls of the program. Script models the
-- functions that it can call, src/interface/toplevel.cpp (TopLevel, Features, Depend, Run),
-- src/interface/builddir.cpp (BuildDir, Listing, Fetch) and src/interface/fetchunit.cpp, with
-- lua_guard, Lua::processFile of src/lua.cpp and Package::process; Script.Scope says what a script
-- may change, and Script.Sequence has packages processed one after the other. Whole joins the
-- scripts to World: the packages that they make are those that the scheduler builds, when the
-- search finds no loop. Options models src/options.cpp.
--
-- Package::build calls itself along the dependencies, and so do the traversals; the recursion runs
-- on fuel, the depth of the nesting. A rank of the packages, which exists when there is no
-- dependency loop, bounds the depth, and the theorems on these functions take it above the rank.
-- basePackage refuses to build when there is a loop.
--
-- A file that requires files runs on fuel too, the depth of the nesting; a file may require itself
-- for ever, and what is shown of scripts holds for every fuel, and also when it runs out. Where
-- the scripts are layered, IsLayered in Script.Ending, fuel above the rank of the package's script
-- is enough. It asks this of the scripts as they are on the disk, and of Lua only in states where
-- the program's functions stand under their names; Samples.Requires has such scripts. The names
-- that enclose a package's name are searched on fuel, the length of the name, which is enough.
--
-- Not modelled: the Lua virtual machine, scripts that do not end, logging, main, the locks of
-- packages and of downloads within one build, and the use of an object of one class as one of
-- another, which gives what a parameter says. The search for back edges and the topological sort
-- are the graph library's, and parameters. IsSort in World.Listed states what is taken of the
-- sort, that it gives every vertex of a graph without a loop; IsBack and IsSearch in Graph.Cycles
-- what is taken of the search, that a back edge closes a loop, and that a graph with a loop has
-- one. Samples runs the definitions on hosts where most calls succeed.
pub mod Shared
pub mod Command
pub mod BuildInfo
pub mod Host
pub mod Model
pub mod Effects
pub mod Features
pub mod Files
pub mod Fetch
pub mod Git
pub mod Extraction
pub mod Depends
pub mod Package
pub mod Build
pub mod Graph
pub mod World
pub mod Queue
pub mod Session
pub mod Lua
pub mod Script
pub mod Options
mod Whole
mod Samples

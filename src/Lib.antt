-- ===== src/Lib.antt =====
-- A verification library for the C and C++ code of this workspace.
--
-- The program c/pic-recognizer reads a scanned form and finds which of four answer boxes is marked.
-- Its parts call each other in one line: the picture becomes an array of points
-- (Recognizer/Image: _make_standard_coordinate of demo.c, process_by_row, to_hex and get_range_w of
-- utils.c); each row becomes runs of one colour (Recognizer/Runs: _get_bw_continuous_seq_of_row,
-- _is_col_line_row); rows with five dark runs give ranges (Recognizer/Lines:
-- _locate_col_line_coord_range, rowProcessor); from columns of these come the answer areas
-- (Recognizer/Areas: _try_to_get_answer_area_range), in which dots are counted (Recognizer/Marks:
-- _count_dot_start_with_range, _scan_to_count_area_with_most_dot). Recognizer/Main puts them together
-- like main, and its child Form is about the picture of a form. The children of the other modules have
-- the proofs, Recognizer/Results what they come to.
--
-- Avl is the container of c/libs/fastcommon/src/avl_tree.c. Avl/Node and Avl/Rebalance have the nodes
-- and rotations, Avl/Insert, Avl/Delete and Avl/Query the recursive functions (avl_tree_insert_loop and
-- so on), Avl/Tree the functions of avl_tree.h over AVLTreeInfo. Avl/Shape has the balance, Avl/Order
-- the order of the data, Avl/Contents what each recursive function does to them, and Avl/Laws the
-- contracts.
--
-- Permute is c/libs/heap-permutation.h, with what the callback is given as a list. Permute/Orders lists the
-- rounds of its loop, Permute/Loops and Permute/Rounds run through them, Permute/Lasts and Permute/Once have what
-- the rounds give, and Permute/Visits how much.
--
-- PriorityQueue is c/libs/pqueue. An entry of the caller is its address, and what the callbacks for
-- priorities and positions read and store is a record of functions of the address. Here bubble_up and
-- percolate_down run on fuel: an index is halved, or grows up to the size, so that one more than the
-- index, or the size, is enough, which their proofs show. subtree_is_valid takes the size and one more
-- as fuel, since the index at least grows by one. PriorityQueue/Moves has what the loops do to the array,
-- PriorityQueue/Order the heap order with a hole, PriorityQueue/Settle the loops on it, and
-- PriorityQueue/Items and PriorityQueue/Keeps what the operations do to the entries and the order. They
-- meet in PriorityQueue/Laws, PriorityQueue/Change and PriorityQueue/Valid. pqueue_free, pqueue_dump and
-- pqueue_print are not modelled.
--
-- Chain is c/libs/fastcommon/src/chain.c: the nodes stand in a store by their addresses, so that the
-- pointers to the first and the last node, and from node to node, can be aliases. Chain/Remove takes
-- nodes out. Chain/Linked and Chain/Place have the nodes before and behind a place to which a loop has
-- come; Chain/Adds, Chain/Sorted, Chain/Deletes, Chain/Pops, Chain/Removes and Chain/Destroys what the
-- operations do there. Chain/Abstract is the list of data that a user sees, Chain/Calls a sequence of
-- calls, which Chain/Steps and Chain/Refines compare with it. The loops over nodes run on fuel that is
-- an argument; more than the number of nodes is enough, and the number of calls bounds that. malloc is
-- a parameter, which may give no memory, or an address that is not allocated. deleteToNodePrevious,
-- which is handed nodes, is modelled but not among those calls.
--
-- Utils is cpp/src/utils. Utils/Text has the strings of common/str.cpp, as lists of bytes: Text/Search
-- where a pattern is found, Text/Replace replaceAll, whose recursion runs on fuel that is an argument
-- (the theorems say how much is enough, and when none is), Text/Url url_encode against a decoder.
-- Utils/Dispatcher is dispatcher/Dispatcher.h: the unordered_map is a list in the order of iteration,
-- and what an insertion does to that order is an argument, of which the theorems only ask that it is a
-- rearrangement. Dispatcher/Table has the lists by name, Dispatcher/Registry a change of one name,
-- Dispatcher/Laws and Dispatcher/Proceeds each operation, and Dispatcher/Calls any sequence of them.
-- Utils/Pipe is pipe/Pipe.h, with its map in Pipe/Steps, Utils/Combinator is combinator/Combinator.h, and
-- Utils/Generator is _urlGenerator of cpp/demo.cpp, which composes them. A function of the caller that
-- throws gives `none`; tests are taken not to throw. A char is its byte.
--
-- Stub is cpp/scripts/gene-gtest-stub.cpp, which calls replaceAll as in Utils/Text. Stub/Main is its main:
-- what the files hold, and which can be written, is an argument. Stub/Ctags finds the lines about a file and
-- reads the methods in them, and Stub/Paths makes the names of the class and of the test file; there a
-- regular expression is the search for it. Stub/Templates has templates as texts with marks, and what the
-- calls of replaceAll make of them (Fill for one mark, Each for all, Dollar for marks that begin with "$");
-- Stub/Fixture, Stub/Blocks, Stub/Mock and Stub/Method are the blocks of the file, and Stub puts them
-- together. Stub/Methods has what is written for a method. The fuel is that of replaceAll: 9 is above the
-- number of places of each template, and it has to be above the number of parameters of each method.
--
-- An array is a list. A read or write out of range, or a null pointer that is followed, is `none`, so
-- that a function that returns `some` has stayed in range. Memory from malloc is a list that is given,
-- whatever it holds, and for the buffer of a row it is another one at each call. Whether a malloc of a
-- tree node gives memory is an argument of the call. An AVL tree is reached through one pointer to each
-- node, so a subtree is a value. A pointer to a function is a function; of the free function there is
-- only whether it is set, and the data given to it are listed.
--
-- Numbers are natural numbers: coordinates are columns and rows of a picture, whose sizes an int holds,
-- and comparisons and balances are integers. Loops are recursions on the number of rounds that the
-- bounds of the `for` give, or on the tree, but for those above.
--
-- _locate_col_line_coord_range pairs a last blank run with a unit behind it, which malloc gave and
-- nothing wrote: in the model that is whatever the buffer of the call holds. The number of items
-- of heapPermute is a byte, and the int indices of pqueue are taken to stay below 2 ^ 31, so that
-- the sizes are below 2 ^ 30. What snprintf makes of "%0nc" and '0', which C leaves undefined, is
-- an argument: `n` zeros or blanks.
--
-- Not modelled: output (printf, avl_tree_print, cpp/src/utils/io and debug, and what the generator
-- prints), freeing of memory that is not used again, and the loading of the file by bmpread, whose
-- result is the argument of `recognize`.
pub mod Common
pub mod Avl
pub mod Recognizer
pub mod Permute
pub mod PriorityQueue
pub mod Chain
pub mod Utils
pub mod Stub
